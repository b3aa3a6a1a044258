-- ===== src/Session/Server/Pump/Progress.antt =====
-- `processMessages` receives everything that the connections hand over.
use mathlib.Core.List.{append_assoc}
use mchat.Base.{◌≡◌, refl, sym, ap, ◌∙◌, inl, List, [], ◌++◌, true, false}
use mchat.Runtime.{Runtime}
use mchat.Backend.Defs.{Backend}
use mchat.Backend.Contract.{KeepsHistory}
use mchat.Session.State.{Message}
use mchat.Session.Reader.Log.{Extends, Extends-split}
use mchat.Session.Reader.Log.Growth.{round-Extends}
use mchat.Session.Server.{
  Server, accept, expire, thread, Step, accepts, rounds_on, rounds_off, expires,
}
use mchat.Session.Server.Pump.{Pumped, PumpReach, opened, moved, serves, pumps}

module _ {rt : Runtime} {b : Backend} (k : KeepsHistory b) where
  Step-Extends : {s s' : Server b} → Step rt s s' → Extends s.world.sent s'.world.sent
  unfolding accept expire
  Step-Extends (accepts ip free) = inl refl
  Step-Extends {s} (rounds_on p r e t at on) = round-Extends rt k (thread r s.world) t e false on
  Step-Extends {s} (rounds_off p r e t at off) = round-Extends rt k (thread r s.world) t e true off
  Step-Extends (expires p watched) = inl refl

  -- Over any storage that keeps its general history, after any rounds of all the connections and of
  -- `processMessages`, in any order: the messages that it has handled are those that were handed
  -- over first, each once and in that order; the others are pending behind them.
  handled_first :
      {storage : b.Store} {s : Pumped b}
      → PumpReach rt storage s
      → (pending : List Message) × (s.server.world.sent ≡ pending ++ s.handled)
  handled_first opened = ([], refl)
  handled_first (moved {s} reach (serves next step)) =
      let (pending, before) = handled_first reach in
      let (new, after) = Extends-split s.server.world.sent next.world.sent (Step-Extends step) in
      (new ++ pending, after ∙ ap (λ l. new ++ l) before ∙ sym (append_assoc new pending s.handled))
  handled_first (moved reach (pumps net n pending m e)) = (pending, e)

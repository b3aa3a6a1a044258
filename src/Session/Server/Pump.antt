-- ===== src/Session/Server/Pump.antt =====
-- The connections of a session together with `processMessages` of pkg/session/session.go, which
-- broadcasts what they hand over, one message after the other, while they go on.
pub mod Integrity
pub mod Progress
use mathlib.Core.List.{Mem, mem-append_left, mem-append_right, mem-cons_self}
use mchat.Base.{
  ℕ, ◌≡◌, refl, ap, sym, subst, ◌⊎◌, inl, inr, Bool, true, false, List, [], ◌∷◌, ◌++◌, map, some,
  Bytes, All, if◌then◌else◌, is_empty, Option, none,
}
use mchat.Dict.{lookup}
use mchat.Runtime.{Runtime}
use mchat.Types.{ChatMessage, SysMessage}
use mchat.Backend.Defs.{Backend}
use mchat.Backend.Contract.{KeepsNames, KeepsHistory}
use mchat.Session.State.{Thread, Message, sys, chat}
use mchat.Session.Texts.{chat_line}
use mchat.Session.ConnectionMap.{Network, broadcast_message}
use mchat.Session.ConnectionMap.Broadcast.{broadcast_message-chat, broadcast_message-sys, addressed}
use mchat.Session.Reader.Log.{chat_log}
use mchat.Session.Reader.Log.Authors.{Authored, round-Authored}
use mchat.Session.Server.{
  Server, accept, expire, create, thread, Step, accepts, rounds_on, rounds_off, expires, Reach,
  start, later,
}
use mchat.Session.Server.Invariant.{ServerInv, unchanged_for, free_for}
use mchat.Session.Server.Names.{Reach-ServerInv}
use mchat.Session.Server.Authors.{AllFrom, Reach-AllFrom}

-- What was written to which connection for which message, the last write first.
abbrev pub Writes : Type 0
Writes = List (Message × ℕ × Bytes)

abbrev pub for_message : Message → ℕ × Bytes → Message × ℕ × Bytes
for_message m (q, text) = (m, q, text)

-- `handled` are the messages that `processMessages` has received, the last one first.
pub record Pumped (b : Backend) : Type 0 where
  pub server : Server b
  pub handled : List Message
  pub written : Writes

module _ {b : Backend} (rt : Runtime) where
  -- a round of `processMessages` with a message
  abbrev pub pump : Network → ℕ → Pumped b → Message → Pumped b
  pump net n s m = record s {
    handled = m ∷ s.handled;
    written = map (for_message m) (broadcast_message rt net n s.server.world m).writes ++ s.written;
  }

  -- The messages are received in the order in which they are handed over.
  pub data PumpStep (s : Pumped b) : Pumped b → Type 0 where
    serves : (next : Server b) → Step rt s.server next → PumpStep s (record s { server = next })
    pumps :
        (net : Network) (n : ℕ) (pending : List Message) (m : Message)
        → s.server.world.sent ≡ pending ++ (m ∷ s.handled)
        → PumpStep s (pump net n s m)

  pub data PumpReach (storage : b.Store) : Pumped b → Type 0 where
    opened : PumpReach storage (record { server = create storage; handled = []; written = [] })
    moved : {s s' : Pumped b} → PumpReach storage s → PumpStep s s' → PumpReach storage s'

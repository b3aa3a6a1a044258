-- ===== src/Session/Server/Log.antt =====
-- The general history of a session against what its connections sent.
use mchat.Base.{◌≡◌, ◌++◌, List, [], ◌∷◌, some, true, false}
use mathlib.Core.List.{append-nil}
use mchat.Runtime.{Runtime}
use mchat.Types.{ChatMessage}
use mchat.Backend.Defs.{Backend}
use mchat.Backend.Contract.{KeepsHistory}
use mchat.Session.Reader.Log.{chat_log, IsLogged}
use mchat.Session.Reader.Log.Rounds.{round-IsLogged}
use mchat.Session.Server.{
  Server, accept, thread, expire, Step, accepts, rounds_on, rounds_off, expires, Reach, start,
  later,
}

module _ {rt : Runtime} {b : Backend} (k : KeepsHistory b) where
  Step-IsLogged :
      (old : List ChatMessage) {s s' : Server b}
      → Step rt s s'
      → IsLogged old s.world
      → IsLogged old s'.world
  unfolding accept expire
  Step-IsLogged old (accepts ip free) logged = logged
  Step-IsLogged old {s} (rounds_on p r e t at on) logged =
      round-IsLogged rt k old (thread r s.world) t e false on logged
  Step-IsLogged old {s} (rounds_off p r e t at off) logged =
      round-IsLogged rt k old (thread r s.world) t e true off logged
  Step-IsLogged old (expires p watched) logged = logged

  -- Over any storage that keeps its general history, which is `old` at the start, after any rounds of all
  -- the connections of which no two overlap: the general history is `old` with the chat messages behind it that the
  -- connections handed over for the broadcast, each once and in the same order.
  pub history-sent :
      {storage : b.Store} {s : Server b} (old : List ChatMessage)
      → b.get_chat_history storage ([] ∷ []) ≡ some old
      → Reach rt storage s
      → b.get_chat_history s.world.storage ([] ∷ []) ≡ some (old ++ chat_log s.world.sent)
  history-sent old h start = unfold chat_log in rw (append-nil old) h
  history-sent old h (later reach step) = Step-IsLogged old step (history-sent old h reach)

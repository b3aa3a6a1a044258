-- ===== src/Session/Run.antt =====
-- How a session of pkg/session/session.go lives and ends: the goroutines of `Run`, of
-- `processMessages` and of the closure that closes the listener, the shutdown timer, and of each
-- `handleConnection` what it does to them. A send and its receive are one step. The
-- closer has taken its trigger before it stands at its own send, which the `select` of `Run` looks at.
pub mod Shutdown
mod Examples
use mchat.Base.{ℕ, zero, suc, ◌+◌, ◌≡◌, Bool, true, false, List, [], ◌∷◌, ◌++◌, if◌then◌else◌, ◌==◌}
use mchat.Session.State.{Message, sys, chat}

pub record Metrics : Type 0 where
  pub joined : ℕ
  pub left : ℕ
  pub received_chat_messages : ℕ
  pub broadcasted_chat_messages : ℕ
  pub sent_sys_messages : ℕ

abbrev pub no_metrics : Metrics
no_metrics = record {
  joined = 0;
  left = 0;
  received_chat_messages = 0;
  broadcasted_chat_messages = 0;
  sent_sys_messages = 0;
}

-- what `processMessages` does with the value of `broadcastMessage`
unfoldable pub count_message : Metrics → Message → ℕ → Metrics
count_message m (chat msg) broadcasted = record m {
  broadcasted_chat_messages = m.broadcasted_chat_messages + broadcasted;
}
count_message m (sys msg) sent = record m { sent_sys_messages = sent }

-- The loop of `Run` waits in `Accept`, or is about to stop the timer for a new connection.
pub data RunState : Type 0 where
  in_accept stopping_timer run_returned run_panicked : RunState

-- `processMessages` waits for a message or the timer, or for the closer to take its trigger.
pub data PumpState : Type 0 where
  in_select triggering pump_returned : PumpState

pub data CloserState : Type 0 where
  awaiting_trigger triggered signalling closing closer_returned : CloserState

-- A timer of Go 1.21: `Stop` and `Reset` leave a tick that was not received in the channel.
pub record Timer : Type 0 where
  pub is_running : Bool
  pub has_tick : Bool

-- `connected` counts the connections of the map, `leaving` the handlers that have taken theirs out;
-- `delivered` are the messages that `processMessages` has broadcast.
pub record Session : Type 0 where
  pub run : RunState
  pub pump : PumpState
  pub closer : CloserState
  pub is_listening : Bool
  pub shutdown_timer : Timer
  pub connected : ℕ
  pub leaving : ℕ
  pub metrics : Metrics
  pub delivered : List Message

abbrev pub is_alive : RunState → Bool
is_alive run_panicked = false
is_alive _ = true

-- `CreateSession`, and the three goroutines started
abbrev pub create_session : Session
create_session = record {
  run = in_accept;
  pump = in_select;
  closer = awaiting_trigger;
  is_listening = true;
  shutdown_timer = record { is_running = true; has_tick = false };
  connected = 0;
  leaving = 0;
  metrics = no_metrics;
  delivered = [];
}

-- `Accept` gives a connection, which is put into the map and handled.
unfoldable pub accept_conn : Session → Session
accept_conn s = record s { run = stopping_timer; connected = s.connected + 1 }

-- `Accept` fails, and gives no connection: the `select` takes the signal where the closer offers it,
-- and otherwise the address of the missing connection is asked for.
unfoldable pub accept_error : Session → Session
accept_error s = elim s.closer [
  | signalling ↦ record s { run = run_returned; closer = closing }
  | awaiting_trigger ↦ record s { run = run_panicked }
  | triggered ↦ record s { run = run_panicked }
  | closing ↦ record s { run = run_panicked }
  | closer_returned ↦ record s { run = run_panicked }
]

abbrev pub stop : Timer → Timer
stop t = record t { is_running = false }

abbrev pub reset : Timer → Timer
reset t = record t { is_running = true }

abbrev pub fire : Timer → Timer
fire t = record { is_running = false; has_tick = true }

-- the end of `handleConnection`
unfoldable pub check_empty : Session → Session
check_empty s = if s.connected == 0 then record s { shutdown_timer = reset s.shutdown_timer } else s

pub data Step (s : Session) : Session → Type 0 where
  accepts : s.run ≡ in_accept → s.is_listening ≡ true → Step s (accept_conn s)
  stops_timer :
      s.run ≡ stopping_timer
      → Step s (record s { run = in_accept; shutdown_timer = stop s.shutdown_timer })
  fails : s.run ≡ in_accept → Step s (accept_error s)
  fires :
      s.shutdown_timer.is_running ≡ true
      → Step s (record s { shutdown_timer = fire s.shutdown_timer })
  delivers :
      (m : Message) (written : ℕ)
      → s.pump ≡ in_select
      → Step s (record s {
        metrics = count_message s.metrics m written;
        delivered = s.delivered ++ (m ∷ []);
      })
  ticks :
      s.pump ≡ in_select
      → s.shutdown_timer.has_tick ≡ true
      → Step s (record s {
        pump = triggering;
        shutdown_timer = record (s.shutdown_timer) { has_tick = false };
      })
  triggers :
      s.pump ≡ triggering
      → s.closer ≡ awaiting_trigger
      → Step s (record s { pump = pump_returned; closer = triggered })
  signals : s.closer ≡ triggered → Step s (record s { closer = signalling })
  closes : s.closer ≡ closing → Step s (record s { is_listening = false; closer = closer_returned })
  leaves :
      (n : ℕ) → s.connected ≡ suc n → Step s (record s { connected = n; leaving = s.leaving + 1 })
  checks : (n : ℕ) → s.leaving ≡ suc n → Step s (check_empty (record s { leaving = n }))

-- A panic ends the process.
pub data Steps (s : Session) : Session → Type 0 where
  stays : Steps s s
  steps : {s' s'' : Session} → Steps s s' → is_alive s'.run ≡ true → Step s' s'' → Steps s s''

-- ===== src/Session/Run/Shutdown.antt =====
-- How a session is shut down: the listener, the trigger and the messages after it.
use mchat.Base.{
  ◌≡◌, refl, inl, inr, Bool-cases, ap, ◌∙◌, Bool, true, false, not, ◌&&◌, ◌⊎◌, ◌||◌, arith,
  if◌then◌else◌,
}
use mchat.Session.Run.{
  RunState, in_accept, run_returned, run_panicked, PumpState, pump_returned, CloserState,
  awaiting_trigger, triggered, signalling, closing, closer_returned, Session, create_session,
  accept_conn, accept_error, check_empty, Step, accepts, stops_timer, fails, fires, delivers, ticks,
  triggers, signals, closes, leaves, checks, Steps, stays, steps,
}

abbrev has_returned : RunState → Bool
has_returned run_returned = true
has_returned _ = false

abbrev pub has_left : PumpState → Bool
has_left pump_returned = true
has_left _ = false

abbrev is_triggered : CloserState → Bool
is_triggered awaiting_trigger = false
is_triggered _ = true

-- The closer has been let go by `Run`.
abbrev is_released : CloserState → Bool
is_released closing = true
is_released closer_returned = true
is_released _ = false

-- The closer has taken the trigger, and is not yet at its send.
abbrev pub has_taken : CloserState → Bool
has_taken triggered = true
has_taken _ = false

record ShutdownInv (s : Session) : Type 0 where
  listens : (s.is_listening || is_released s.closer) ≡ true
  released : (not (is_released s.closer) || has_returned s.run) ≡ true
  triggered : is_triggered s.closer ≡ has_left s.pump

accept_error-ShutdownInv :
    (s : Session) → s.run ≡ in_accept → ShutdownInv s → ShutdownInv (accept_error s)
unfolding accept_error
accept_error-ShutdownInv s at v =
    let busy = ap has_returned at in
    record {
      listens = ground (arith, v.listens, v.released, busy);
      released = ground (arith, v.released, busy);
      triggered = ground (arith, v.triggered, busy);
    }

check_empty-ShutdownInv : (s : Session) → ShutdownInv s → ShutdownInv (check_empty s)
unfolding check_empty
check_empty-ShutdownInv s v = record {
  listens = ground (arith, v.listens);
  released = ground (arith, v.released);
  triggered = ground (arith, v.triggered);
}

Step-ShutdownInv : {s s' : Session} → Step s s' → ShutdownInv s → ShutdownInv s'
unfolding accept_conn
Step-ShutdownInv {s} (accepts at listening) v = record {
  listens = v.listens;
  triggered = v.triggered;
  released = ground (arith, v.released, ap has_returned at);
}
Step-ShutdownInv {s} (stops_timer at) v = record {
  listens = v.listens;
  triggered = v.triggered;
  released = ground (arith, v.released, ap has_returned at);
}
Step-ShutdownInv {s} (fails at) v = accept_error-ShutdownInv s at v
Step-ShutdownInv {s} (fires running) v = record {
  listens = v.listens;
  triggered = v.triggered;
  released = v.released;
}
Step-ShutdownInv {s} (delivers m written at) v = record {
  listens = v.listens;
  triggered = v.triggered;
  released = v.released;
}
Step-ShutdownInv {s} (ticks at tick) v = record {
  listens = v.listens;
  triggered = v.triggered ∙ ap has_left at;
  released = v.released;
}
Step-ShutdownInv {s} (triggers at awaiting) v = record {
  listens = ground (arith, v.listens, ap is_released awaiting);
  released = refl;
  triggered = refl;
}
Step-ShutdownInv {s} (signals at) v = record {
  listens = ground (arith, v.listens, ap is_released at);
  released = refl;
  triggered = ground (arith, v.triggered, ap is_triggered at);
}
Step-ShutdownInv {s} (closes at) v = record {
  listens = refl;
  released = ground (arith, v.released, ap is_released at);
  triggered = ground (arith, v.triggered, ap is_triggered at);
}
Step-ShutdownInv {s} (leaves n h) v = record {
  listens = v.listens;
  triggered = v.triggered;
  released = v.released;
}
Step-ShutdownInv {s} (checks n h) v =
    check_empty-ShutdownInv (record s { leaving = n })
      (record { listens = v.listens; triggered = v.triggered; released = v.released })

Steps-ShutdownInv : {s s' : Session} → Steps s s' → ShutdownInv s → ShutdownInv s'
Steps-ShutdownInv stays v = v
Steps-ShutdownInv (steps past alive step) v = Step-ShutdownInv step (Steps-ShutdownInv past v)

signalling_lem :
    (c : CloserState)
    → is_triggered c ≡ true
    → is_released c ≡ false
    → (c ≡ triggered) ⊎ (c ≡ signalling)
signalling_lem awaiting_trigger t r = cc
signalling_lem triggered t r = inl refl
signalling_lem signalling t r = inr refl
signalling_lem closing t r = cc
signalling_lem closer_returned t r = cc

awaiting_lem : (c : CloserState) → is_triggered c ≡ false → c ≡ awaiting_trigger
awaiting_lem awaiting_trigger t = refl
awaiting_lem triggered t = cc
awaiting_lem signalling t = cc
awaiting_lem closing t = cc
awaiting_lem closer_returned t = cc

-- After any steps of a new session, while `Run` is in `Accept`: the listener is open, so that
-- `Accept` never fails because of the shutdown; and where `Accept` fails, `Run` returns if
-- `processMessages` has left and the closer stands at its send already, and panics otherwise.
pub Steps-accept_error :
    (s : Session)
    → Steps create_session s
    → s.run ≡ in_accept
    → (s.is_listening ≡ true)
      × ((accept_error s).run
          ≡ (if has_left s.pump && not (has_taken s.closer) then run_returned else run_panicked))
unfolding accept_error
Steps-accept_error s past at =
    let v = Steps-ShutdownInv past (record { listens = refl; released = refl; triggered = refl }) in
    let unreleased : is_released s.closer ≡ false =
      ground (arith, v.released, ap has_returned at) in
    (
      ground (arith, v.listens),
      elim (Bool-cases (has_left s.pump)) [
        | inl left ↦ elim (signalling_lem s.closer (v.triggered ∙ left) unreleased) [
          | inl early ↦ rw (left, early) refl
          | inr offers ↦ rw (left, offers) refl
        ]
        | inr present ↦ rw (present, awaiting_lem s.closer (v.triggered ∙ present)) refl
      ],
    )

Step_silent :
    {s s' : Session}
    → Step s s'
    → s.pump ≡ pump_returned
    → (s'.pump ≡ pump_returned) × (s'.delivered ≡ s.delivered)
unfolding accept_conn accept_error check_empty
Step_silent {s} (accepts at listening) gone = (gone, refl)
Step_silent {s} (stops_timer at) gone = (gone, refl)
Step_silent {s} (fails at) gone = ground (arith, gone)
Step_silent {s} (fires running) gone = (gone, refl)
Step_silent {s} (delivers m written at) gone = cc
Step_silent {s} (ticks at tick) gone = cc
Step_silent {s} (triggers at awaiting) gone = cc
Step_silent {s} (signals at) gone = (gone, refl)
Step_silent {s} (closes at) gone = (gone, refl)
Step_silent {s} (leaves n h) gone = (gone, refl)
Step_silent {s} (checks n h) gone = ground (arith, gone)

-- Once `processMessages` has left, it stays away and no message is delivered any more, whatever
-- steps follow, new connections included.
pub silent_after :
    {s s' : Session}
    → s.pump ≡ pump_returned
    → Steps s s'
    → (s'.pump ≡ pump_returned) × (s'.delivered ≡ s.delivered)
silent_after gone stays = (gone, refl)
silent_after gone (steps past alive step) =
    let (before, same) = silent_after gone past in
    let (after, still) = Step_silent step before in (after, still ∙ same)

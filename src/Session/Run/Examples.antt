-- ===== src/Session/Run/Examples.antt =====
-- A session that nobody joins until its timer fires.
use mchat.Base.{◌≡◌, refl, true, false, not, ◌&&◌, if◌then◌else◌}
use mchat.Session.Run.{
  Session, create_session, accept_error, run_returned, run_panicked, signalling, triggering,
  pump_returned, fire, Steps, stays, steps, fires, ticks, triggers, signals,
}
use mchat.Session.Run.Shutdown.{has_left, has_taken, Steps-accept_error}

abbrev fired : Session
fired = record create_session { shutdown_timer = fire create_session.shutdown_timer }

abbrev ticked : Session
ticked = record fired {
  pump = triggering;
  shutdown_timer = record (fired.shutdown_timer) { has_tick = false };
}

abbrev offered : Session
offered = record ticked { pump = pump_returned; closer = signalling }

offered_reached : Steps create_session offered
offered_reached =
    steps
      (steps (steps (steps stays refl (fires refl)) refl (ticks refl refl)) refl
        (triggers refl refl))
      refl (signals refl)

Steps-accept_error_example :
    (offered.is_listening ≡ true)
    × ((accept_error offered).run ≡ (
        if has_left offered.pump && not (has_taken offered.closer)
        then run_returned
        else run_panicked))
Steps-accept_error_example = Steps-accept_error offered offered_reached refl

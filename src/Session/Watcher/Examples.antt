-- ===== src/Session/Watcher/Examples.antt =====
-- A client that is active once and then idle.
use mchat.Base.{◌+◌, ◌≡◌, refl, true, false, not, ◌||◌, leb, arith}
use mchat.Session.Watcher.{
  Watcher, watch, abort, closed, Reach, begins, later, passes, aborts, fires, closes,
}
use mchat.Session.Watcher.Timing.{is_draining, is_closed, is_watching, closed_after}

abbrev active : Watcher
active = abort 1 (record (watch 1 0) { now = 1 })

abbrev idle : Watcher
idle = record active { now = 2 }

abbrev ended : Watcher
ended = record idle { phase = closed; timer = record { is_running = false; has_tick = false } }

active_reached : Reach 1 0 active
active_reached = later (later begins passes) (aborts refl)

ended_reached : Reach 1 0 ended
unfolding abort
ended_reached =
    later (later (later active_reached passes) (fires refl (omega arith))) (closes refl refl)

closed_after_example :
    ((not (is_closed ended.phase) || leb (ended.since + 1) ended.now) ≡ true)
    × ((not (is_watching ended.phase) || (ended.timer.is_running || ended.timer.has_tick)) ≡ true)
    × ((not (is_draining ended.phase) || ended.timer.has_tick) ≡ true)
closed_after_example = closed_after 1 ended_reached

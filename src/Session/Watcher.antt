-- ===== src/Session/Watcher.antt =====
-- `disconnectIfIdle` of pkg/session/connection.go: the goroutine that closes an idle connection, its
-- timer of Go 1.21, and the time, which goes on in units of the timeout.
pub mod Timing
mod Examples
use mchat.Base.{ℕ, ◌+◌, ◌≡◌, ◌≤◌, Bool, true, false, if◌then◌else◌}
use mchat.Session.Run.{Timer, stop, reset, fire}

-- `draining` is the receive from the timer after `Stop` has returned false.
pub data Phase : Type 0 where
  in_select draining closed left : Phase

-- `since` is when the timer was started or reset last.
pub record Watcher : Type 0 where
  pub now : ℕ
  pub since : ℕ
  pub timer : Timer
  pub phase : Phase

module _ (timeout : ℕ) where
  abbrev pub watch : ℕ → Watcher
  watch now = record {
    now = now;
    since = now;
    timer = record { is_running = true; has_tick = false };
    phase = in_select;
  }

  abbrev pub deadline : Watcher → ℕ
  deadline w = w.since + timeout

  -- `timer.Reset(c.timeout)`, back to the `select`
  abbrev pub restart : Watcher → Watcher
  restart w = record w { since = w.now; timer = reset w.timer; phase = in_select }

  -- the branch of `abortConnectionTimeout`
  unfoldable pub abort : Watcher → Watcher
  abort w =
      if w.timer.is_running
      then restart (record w { timer = stop w.timer })
      else record w { phase = draining }

  pub data Step (w : Watcher) : Watcher → Type 0 where
    passes : Step w (record w { now = w.now + 1 })
    fires :
        w.timer.is_running ≡ true → deadline w ≤ w.now → Step w (record w { timer = fire w.timer })
    closes :
        w.phase ≡ in_select
        → w.timer.has_tick ≡ true
        → Step w (record w { phase = closed; timer = record (w.timer) { has_tick = false } })
    aborts : w.phase ≡ in_select → Step w (abort w)
    drains :
        w.phase ≡ draining
        → w.timer.has_tick ≡ true
        → Step w (restart (record w { timer = record (w.timer) { has_tick = false } }))
    cancels : w.phase ≡ in_select → Step w (record w { phase = left })

  pub data Reach (start : ℕ) : Watcher → Type 0 where
    begins : Reach start (watch start)
    later : {w w' : Watcher} → Reach start w → Step w w' → Reach start w'

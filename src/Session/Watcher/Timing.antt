-- ===== src/Session/Watcher/Timing.antt =====
-- When an idle connection is closed.
use mchat.Base.{
  ℕ, ◌+◌, ◌≡◌, refl, ap, Bool, true, false, not, ◌&&◌, ◌||◌, leb, arith, inl, inr, Bool-cases,
}
use mchat.Session.Watcher.{
  Phase, in_select, draining, closed, left, Watcher, deadline, abort, Step, passes, fires, closes,
  aborts, drains, cancels, Reach, begins, later,
}

abbrev pub is_draining : Phase → Bool
is_draining draining = true
is_draining _ = false

abbrev pub is_closed : Phase → Bool
is_closed closed = true
is_closed _ = false

-- The goroutine has not ended.
abbrev pub is_watching : Phase → Bool
is_watching in_select = true
is_watching draining = true
is_watching _ = false

module _ (timeout : ℕ) where
  record WatcherInv (w : Watcher) : Type 0 where
    one_timer : (not (is_watching w.phase) || (w.timer.is_running || w.timer.has_tick)) ≡ true
    drainable : (not (is_draining w.phase) || not w.timer.is_running) ≡ true
    tick_late : (not w.timer.has_tick || leb (deadline timeout w) w.now) ≡ true
    closed_late : (not (is_closed w.phase) || leb (deadline timeout w) w.now) ≡ true
    exclusive : (w.timer.is_running && w.timer.has_tick) ≡ false

  abort-WatcherInv :
      (w : Watcher) → w.phase ≡ in_select → WatcherInv w → WatcherInv (abort timeout w)
  unfolding abort
  abort-WatcherInv w at v = elim (Bool-cases w.timer.is_running) [
    | inl running ↦ rw running (record {
      one_timer = refl;
      drainable = refl;
      tick_late = ground (arith, v.exclusive, running);
      closed_late = refl;
      exclusive = ground (arith, v.exclusive, running);
    })
    | inr fired ↦ rw fired (record {
      one_timer = ground (arith, v.one_timer, fired, ap is_watching at);
      drainable = ground (arith, fired);
      tick_late = v.tick_late;
      closed_late = refl;
      exclusive = refl;
    })
  ]

  Step-WatcherInv : {w w' : Watcher} → Step timeout w w' → WatcherInv w → WatcherInv w'
  Step-WatcherInv {w} passes v = record {
    one_timer = v.one_timer;
    drainable = v.drainable;
    exclusive = v.exclusive;
    tick_late = ground (arith, v.tick_late);
    closed_late = ground (arith, v.closed_late);
  }
  Step-WatcherInv {w} (fires running due) v = record {
    one_timer = ground arith;
    drainable = ground arith;
    tick_late = ground (arith, due);
    closed_late = v.closed_late;
    exclusive = refl;
  }
  Step-WatcherInv {w} (closes at tick) v = record {
    one_timer = refl;
    drainable = refl;
    tick_late = refl;
    closed_late = ground (arith, v.tick_late, tick);
    exclusive = ground arith;
  }
  Step-WatcherInv {w} (aborts at) v = abort-WatcherInv w at v
  Step-WatcherInv {w} (drains at tick) v = record {
    one_timer = refl;
    drainable = refl;
    tick_late = refl;
    closed_late = refl;
    exclusive = refl;
  }
  Step-WatcherInv {w} (cancels at) v = record {
    one_timer = refl;
    drainable = refl;
    closed_late = refl;
    tick_late = v.tick_late;
    exclusive = v.exclusive;
  }

  Reach-WatcherInv : {start : ℕ} {w : Watcher} → Reach timeout start w → WatcherInv w
  Reach-WatcherInv begins = record {
    one_timer = refl;
    drainable = refl;
    tick_late = refl;
    closed_late = refl;
    exclusive = refl;
  }
  Reach-WatcherInv (later reach step) = Step-WatcherInv step (Reach-WatcherInv reach)

  -- However time passes and clients are active: the watcher closes a connection no earlier than the
  -- timeout after the last activity; as long as it watches, its timer runs or has a tick for it;
  -- and where it waits for the tick of a timer that it could not stop, the tick is there.
  pub closed_after :
      {start : ℕ} {w : Watcher}
      → Reach timeout start w
      → ((not (is_closed w.phase) || leb (w.since + timeout) w.now) ≡ true)
        × ((not (is_watching w.phase) || (w.timer.is_running || w.timer.has_tick)) ≡ true)
        × ((not (is_draining w.phase) || w.timer.has_tick) ≡ true)
  closed_after {w = w} reach =
      let v = Reach-WatcherInv reach in
      (
        v.closed_late,
        v.one_timer,
        drained w.phase w.timer.is_running w.timer.has_tick v.drainable v.one_timer,
      )
    where
      drained :
          (p : Phase) (running tick : Bool)
          → (not (is_draining p) || not running) ≡ true
          → (not (is_watching p) || (running || tick)) ≡ true
          → (not (is_draining p) || tick) ≡ true
      drained in_select running tick h h' = refl
      drained draining running tick h h' = ground (arith, h, h')
      drained closed running tick h h' = refl
      drained left running tick h h' = refl

-- ===== src/MainLoop.antt =====
-- marmot.go: the loop of `main`, and `changeListener`. What the loop calls is an interface; its own state
-- is behind it. A time is in milliseconds.
pub mod Spacing
pub mod Node
use marmot.Base.{
  ℕ, ◌+◌, ◌-◌, Bool, true, false, ◌&&◌, Option, none, some, List, [], ◌∷◌, leb, if◌then◌else◌,
}
use marmot.Base.Errors.{Error, Result, ok, err, panic}
use marmot.Cfg.{Configuration}

-- What `select` takes from its channels: the end of a listener, and the ticks of the three timers.
pub data Event : Type 0 where
  listener : Option Error → Event
  cleanup : ℕ → Event
  snapshot : ℕ → Event
  sleep : ℕ → Event

-- `CleanupChangeLogs`, the time of the last snapshot, `SaveSnapshot` and `ForceSaveSnapshot` of the
-- replicator, and `Cancel` of the state context.
pub record Program (S : Type 0) : Type 0 where
  pub cleanup_change_logs : ℕ → S → Result ℕ × S
  pub last_save_snapshot_time : S → Option ℕ
  pub save_snapshot : ℕ → S → S
  pub force_save_snapshot : ℕ → S → S
  pub cancel : S → S

-- `os.Exit(0)` ends the program, and so does a panic.
pub data Outcome (S : Type 0) : Type 0 where
  running : S → Outcome S
  panicked : Error → S → Outcome S
  exited : S → Outcome S

-- `now.Sub(last) >= interval`; before the first snapshot the last one is at the zero time.
abbrev pub is_due : Option ℕ → ℕ → ℕ → Bool
is_due none interval now = true
is_due (some last) interval now = leb (last + interval) now

module _ {S : Type 0} (c : Configuration) (p : Program S) where
  snapshots_on : Bool
  snapshots_on = c.snapshot.enable && c.publish

  on_listener : Option Error → S → Outcome S
  on_listener none s = running s
  on_listener (some e) s = panicked e s

  -- An error of the cleanup is only logged.
  on_cleanup : ℕ → S → S
  on_cleanup t s = (p.cleanup_change_logs (t - c.cleanup_interval) s).1

  on_snapshot : ℕ → S → S
  unfolding snapshots_on
  on_snapshot now s =
      if snapshots_on
      then (if is_due (p.last_save_snapshot_time s) c.snapshot.interval now
          then p.save_snapshot now s
          else s)
      else s

  on_sleep : ℕ → S → S
  unfolding snapshots_on
  on_sleep now s = let s' = p.cancel s in if snapshots_on then p.force_save_snapshot now s' else s'

  pub on_event : Event → S → Outcome S
  unfolding on_listener on_cleanup on_snapshot on_sleep
  on_event (listener e) s = on_listener e s
  on_event (cleanup t) s = running (on_cleanup t s)
  on_event (snapshot now) s = running (on_snapshot now s)
  on_event (sleep now) s = exited (on_sleep now s)

  -- The loop, on the events that come.
  unfoldable pub main_loop : List Event → S → Outcome S
  unfolding on_event
  main_loop [] s = running s
  main_loop (e ∷ events) s = elim (on_event e s) [
    | running s' ↦ main_loop events s'
    | panicked x s' ↦ panicked x s'
    | exited s' ↦ exited s'
  ]

-- `changeListener`: the error that it sends on the channel, by what `Listen` returns.
abbrev pub change_listener : Result (Unit {0}) → Option Event
change_listener (ok _) = none
change_listener (err e) = some (listener (some e))
change_listener (panic m) = none

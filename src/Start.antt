-- ===== src/Start.antt =====
-- marmot.go: what `main` does before its loop. What it calls is an interface, on a state `S` behind it.
pub mod CleanUp
use marmot.Base.{ℕ, true, zero, suc, ◌+◌, String, Bool, ◌&&◌, List, if◌then◌else◌}
use marmot.Base.Errors.{Error, Result, ok, err, panic, library}
use marmot.Base.Act.{Act}
use marmot.Cfg.{Configuration}
use marmot.Timer.{TimeoutPublisher, new_timeout_publisher}

-- The flags of the command line.
pub record Flags : Type 0 where
  pub cleanup : Bool
  pub save_snapshot : Bool

-- The calls, in the order of their use; `change_listener` starts the listener of a shard.
pub record Parts (S : Type 0) : Type 0 where
  pub initialize_telemetry : S → S
  pub open_stream_db : Act S (Unit {0})
  pub remove_cdc : Bool → Act S (Unit {0})
  pub new_snapshot_storage : Act S (Unit {0})
  pub new_replicator : Act S (Unit {0})
  pub force_save_snapshot : S → S
  pub restore_snapshot : Act S (Unit {0})
  pub get_all_db_tables : Act S (List String)
  pub install_cdc : List String → Act S (Unit {0})
  pub change_listener : ℕ → S → S

-- The program has ended, by a panic or by a return, or it is at its loop with the two timers.
pub data Stage (S : Type 0) : Type 0 where
  panicked : Error → S → Stage S
  returned : S → Stage S
  looping : TimeoutPublisher → TimeoutPublisher → S → Stage S

module _ {S : Type 0} where
  -- `log.Panic()` or `panic(err)` on an error, and `return` on one.
  abbrev or_panic : {A : Type 0} → Result A × S → (A → S → Stage S) → Stage S
  or_panic (ok a, s) k = k a s
  or_panic (err e, s) k = panicked e s
  or_panic (panic m, s) k = panicked (library m) s

  abbrev or_return : {A : Type 0} → Result A × S → (A → S → Stage S) → Stage S
  or_return (ok a, s) k = k a s
  or_return (err e, s) k = returned s
  or_return (panic m, s) k = panicked (library m) s

module _ {S : Type 0} (p : Parts S) (flags : Flags) where
  -- The listeners of the shards from `i + 1` on, so many of them.
  unfoldable pub start_listeners : ℕ → ℕ → S → S
  start_listeners zero i s = s
  start_listeners (suc n) i s = start_listeners n (i + 1) (p.change_listener (i + 1) s)

  unfoldable pub capture_changes : Configuration → ℕ → S → Stage S
  capture_changes c now s = or_return (p.get_all_db_tables s) λ tables s₁.
      or_return (p.install_cdc tables s₁) λ _ s₂.
        looping (new_timeout_publisher now c.sleep_timeout)
          (new_timeout_publisher now c.snapshot.interval)
          (start_listeners c.replication_log.shards 0 s₂)

  unfoldable pub restored : Configuration → ℕ → S → Stage S
  restored c now s =
      if c.snapshot.enable && c.replicate
      then or_panic (p.restore_snapshot s) (λ _ s'. capture_changes c now s')
      else capture_changes c now s

  unfoldable pub replicating : Configuration → ℕ → S → Stage S
  replicating c now s = or_panic (p.new_snapshot_storage s) λ _ s₁.
      or_panic (p.new_replicator s₁) λ _ s₂.
        if flags.save_snapshot then returned (p.force_save_snapshot s₂) else restored c now s₂

  unfoldable pub opened : Configuration → ℕ → S → Stage S
  opened c now s =
      if flags.cleanup
      then or_panic (p.remove_cdc true s) (λ _ s'. returned s')
      else replicating c now s

  -- `loaded` is what `cfg.Load` returns.
  unfoldable pub start : Result Configuration → ℕ → S → Stage S
  start (err e) now s = panicked e s
  start (panic m) now s = panicked (library m) s
  start (ok c) now s =
      or_return (p.open_stream_db (p.initialize_telemetry s)) λ _ s'. opened c now s'

-- ===== src/MainLoop/Node.antt =====
-- The loop of marmot.go over the replicator of logstream/replicator.go.
use marmot.Base.{
  ℕ, ◌+◌, ◌≤◌, ◌≡◌, refl, arith, Bool, true, false, ◌⊎◌, inr, Option, some, List, Pairwise,
}
use marmot.Base.Errors.{Result, ok, err, panic}
use marmot.Cfg.{Configuration}
use marmot.LogStream.Replicator.{Replicator}
use marmot.LogStream.Snapshots.{NatsSnapshot, Saving, force_save_snapshot, save_snapshot}
use marmot.MainLoop.{Event, Program}
use marmot.MainLoop.Spacing.{IsTimed, saved_times, saved_times-apart}

module _ {J W : Type 0} (c : Configuration) (r : Replicator J) (snapshot : Option (NatsSnapshot W))
    (lease : W → Result Bool) (cleanup_change_logs : ℕ → W → Result ℕ × W) (cancel : W → W) where
  abbrev cleaned : Saving W → Result ℕ × W → Result ℕ × Saving W
  cleaned s (count, w) = (count, record s { world = w })

  -- `lease` is what `ContextRefreshingLease` returns in the world of the call. A save takes no time, so
  -- the time that it notes is that of the tick.
  abbrev pub node_program : Program (Saving W)
  node_program = record {
    cleanup_change_logs = λ t s. cleaned s (cleanup_change_logs t s.world);
    last_save_snapshot_time = λ s. s.last_snapshot;
    save_snapshot = λ now s. save_snapshot r snapshot (lease s.world) now s;
    force_save_snapshot = λ now s. force_save_snapshot r snapshot now s;
    cancel = λ s. record s { world = cancel s.world };
  }

  force_save_snapshot-sets :
      (now : ℕ) (s : Saving W)
      → ((force_save_snapshot r snapshot now s).last_snapshot ≡ some now)
        ⊎ ((force_save_snapshot r snapshot now s).last_snapshot ≡ s.last_snapshot)
  unfolding force_save_snapshot
  force_save_snapshot-sets now s = ground arith

  save_snapshot-sets :
      (locked : Result Bool) (now : ℕ) (s : Saving W)
      → ((save_snapshot r snapshot locked now s).last_snapshot ≡ some now)
        ⊎ ((save_snapshot r snapshot locked now s).last_snapshot ≡ s.last_snapshot)
  unfolding save_snapshot
  save_snapshot-sets (ok true) now s = force_save_snapshot-sets now s
  save_snapshot-sets (ok false) now s = inr refl
  save_snapshot-sets (err e) now s = inr refl
  save_snapshot-sets (panic m) now s = inr refl

  node_program-IsTimed : IsTimed c node_program
  node_program-IsTimed = record {
    cleanup_keeps = λ t s. refl;
    save_sets = λ now s. save_snapshot-sets (lease s.world) now s;
  }

  -- While the main loop runs over the replicator, with any snapshot, any answers of the lease and
  -- any events, each snapshot that it saves by its timer is at least the configured interval after
  -- every one before it.
  pub node_saves-apart :
      (events : List Event) (s : Saving W)
      → Pairwise (λ a b. a + c.snapshot.interval ≤ b) (saved_times c node_program events s)
  node_saves-apart = saved_times-apart c node_program node_program-IsTimed

-- ===== src/Db/Open.antt =====
-- `OpenStreamDB` of db/sqlite.go: the pool of its connections, and a checkpoint on the first of them.
pub mod Full
use marmot.Base.{ℕ, String, true, Option, none, some}
use marmot.Base.Errors.{Error, Result, ok, err, panic}
use marmot.Disk.{Disk}
use marmot.Pool.{SqlitePool, new_sqlite_pool, borrow, dispose}
use marmot.Db.Restore.{Engine, perform_checkpoint}

abbrev pub pool_size : ℕ
pool_size = 4

-- The deferred `Return` of the connection; none where the channel would block.
give_back :
    Result (Unit {0})
    → Disk
    → Option (Result (Unit {0}) × SqlitePool)
    → Option (Result SqlitePool × Disk)
give_back r d none = none
give_back (ok _) d (some (_, p)) = some (ok p, d)
give_back (err e) d (some (_, p)) = some (err e, d)
give_back (panic m) d (some (_, p)) = some (panic m, d)

module _ (engine : Engine) (rounds : ℕ) (path : String) where
  checkpointed :
      ℕ → SqlitePool → Option (Result (Unit {0}) × Disk) → Option (Result SqlitePool × Disk)
  unfolding give_back
  checkpointed i p none = none
  checkpointed i p (some (r, d)) = give_back r d (dispose i p)

  borrowed : Disk → Option (Result ℕ × SqlitePool) → Option (Result SqlitePool × Disk)
  unfolding checkpointed
  borrowed d none = none
  borrowed d (some (ok i, p)) = checkpointed i p (perform_checkpoint engine rounds path d)
  borrowed d (some (err e, p)) = some (err e, d)
  borrowed d (some (panic m, p)) = some (panic m, d)

  -- `opening` is what `OpenRaw` gives to the connections as the pool is made, which is lazy, and `first`
  -- what it gives to the one that is borrowed.
  pooled : Option Error → Disk → Result SqlitePool → Option (Result SqlitePool × Disk)
  unfolding borrowed
  pooled first d (ok p) = borrowed d (borrow first p)
  pooled first d (err e) = some (err e, d)
  pooled first d (panic m) = some (panic m, d)

  unfoldable pub open_stream_db :
      ℕ → (ℕ → Option Error) → Option Error → Disk → Option (Result SqlitePool × Disk)
  unfolding pooled
  open_stream_db number opening first d =
      pooled first d (new_sqlite_pool number pool_size true opening)

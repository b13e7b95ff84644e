-- ===== src/Db/Restore.antt =====
-- `RestoreFrom`, `copyFile` and `performCheckpoint` of db/sqlite.go, on a disk. What SQLite does to the
-- files is a parameter.
pub mod Copied
use Prim.Native.String.{◌++◌}
use marmot.Base.{ℕ, zero, suc, String, Option, none, some, nat_beq, if◌then◌else◌, string_key}
use marmot.Base.Errors.{Error, Result, ok, err, panic}
use marmot.Base.Act.{Act, pure, ◌>>=◌, ◌>>◌}
use marmot.Disk.{Disk, open_file, read_all, create, write_all}

-- `OpenRaw` of a database, goqu's `WithTx` on it, and a checkpoint, which tells whether the database
-- was busy.
pub record Engine : Type 0 where
  pub open_raw : String → Act Disk (Unit {0})
  pub with_tx : String → Act Disk (Unit {0}) → Act Disk (Unit {0})
  pub checkpoint : String → Act Disk ℕ

unfoldable pub copy_file : String → String → Act Disk (Unit {0})
copy_file to from = open_file from >> create to >> (read_all from >>= write_all to)

copy_database : String → String → Act Disk (Unit {0})
unfolding copy_file
copy_database to from =
    copy_file to from
    >> copy_file (to ++ "-shm") (from ++ "-shm")
    >> copy_file (to ++ "-wal") (from ++ "-wal")

module _ (engine : Engine) where
  -- `performCheckpoint` on so many rounds; none when it would go on.
  unfoldable pub perform_checkpoint : ℕ → String → Disk → Option (Result (Unit {0}) × Disk)
  perform_checkpoint zero path d = none
  perform_checkpoint (suc rounds) path d =
      let (r, d') = engine.checkpoint path d in
      let rest = perform_checkpoint rounds path d' in
      elim r [
        | err e ↦ some (err e, d')
        | panic m ↦ some (panic m, d')
        | ok busy ↦ if nat_beq busy 0 then some (ok tt, d') else rest
      ]

  -- `RestoreFrom` up to the checkpoint.
  unfoldable pub restore_files : String → String → Act Disk (Unit {0})
  unfolding copy_database
  restore_files to from =
      engine.open_raw to
      >> engine.open_raw from
      >> engine.with_tx from (engine.with_tx to (copy_database to from))

  checkpointed : ℕ → String → Result (Unit {0}) × Disk → Option (Result (Unit {0}) × Disk)
  unfolding perform_checkpoint
  checkpointed rounds to (ok _, d) = perform_checkpoint rounds to d
  checkpointed rounds to (err e, d) = some (err e, d)
  checkpointed rounds to (panic m, d) = some (panic m, d)

  unfoldable pub restore_from : ℕ → String → String → Disk → Option (Result (Unit {0}) × Disk)
  unfolding restore_files checkpointed
  restore_from rounds to from d = checkpointed rounds to (restore_files to from d)

-- ===== src/Db/Restore/Copied.antt =====
-- What `RestoreFrom` of db/sqlite.go copies, and that its checkpoint ends.
use Prim.Native.String.{◌++◌}
use marmot.Base.{ℕ, zero, suc, ◌<◌, String, ◌≡◌, ◌≢◌, ap, ◌∙◌, arith, some, [], string_key, eq_iff}
use marmot.Base.Maps.{Map, lookup, insert, lookup-insert, insert_twice}
use marmot.Base.Errors.{ok}
use marmot.Base.Act.{Act}
use marmot.Disk.{Disk, Bytes}
use marmot.Db.Restore.{
  Engine, copy_file, copy_database, restore_files, restore_from, checkpointed, perform_checkpoint,
}

copy_file-copies :
    (to from : String) (b : Bytes) (d : Disk)
    → d.faults ≡ []
    → lookup from d.files ≡ some b
    → to ≢ from
    → copy_file to from d ≡ (ok tt, record d { files = insert to b d.files })
unfolding copy_file
copy_file-copies to from b d calm e apart =
    ground (
      arith,
      calm,
      e,
      lookup-insert to from [] d.files,
      eq_iff to from,
      insert_twice to [] b d.files,
    )

-- Where the three files of a database stand.
pub record HasDatabase (path : String) (d : Disk) (main shm wal : Bytes) : Type 0 where
  pub main_file : lookup path d.files ≡ some main
  pub shm_file : lookup (path ++ "-shm") d.files ≡ some shm
  pub wal_file : lookup (path ++ "-wal") d.files ≡ some wal

-- No file that is written is read later.
pub record AreApart (to from : String) : Type 0 where
  pub main_main : to ≢ from
  pub main_shm : to ≢ from ++ "-shm"
  pub main_wal : to ≢ from ++ "-wal"
  pub shm_shm : to ++ "-shm" ≢ from ++ "-shm"
  pub shm_wal : to ++ "-shm" ≢ from ++ "-wal"
  pub wal_wal : to ++ "-wal" ≢ from ++ "-wal"

-- The disk with a copy of the database.
abbrev pub copied : String → Bytes → Bytes → Bytes → Disk → Disk
copied to main shm wal d = record d {
  files = insert (to ++ "-wal") wal (insert (to ++ "-shm") shm (insert to main d.files));
}

copy_database-copies :
    (to from : String) (main shm wal : Bytes) (d : Disk)
    → d.faults ≡ []
    → HasDatabase from d main shm wal
    → AreApart to from
    → copy_database to from d ≡ (ok tt, copied to main shm wal d)
unfolding copy_database
copy_database-copies to from main shm wal d calm h apart =
    let d1 : Disk = record d { files = insert to main d.files } in
    let d2 : Disk = record d { files = insert (to ++ "-shm") shm d1.files } in
    let e2 : lookup (from ++ "-shm") d1.files ≡ some shm =
      other_file to (from ++ "-shm") main d.files apart.main_shm h.shm_file in
    let e3 : lookup (from ++ "-wal") d2.files ≡ some wal =
      other_file (to ++ "-shm") (from ++ "-wal") shm d1.files apart.shm_wal
        (other_file to (from ++ "-wal") main d.files apart.main_wal h.wal_file) in
    ground (
      arith,
      copy_file-copies to from main d calm h.main_file apart.main_main,
      copy_file-copies (to ++ "-shm") (from ++ "-shm") shm d1 calm e2 apart.shm_shm,
      copy_file-copies (to ++ "-wal") (from ++ "-wal") wal d2 calm e3 apart.wal_wal,
    )
  where
    other_file :
        (a b : String) (x : Bytes) (files : Map String Bytes) {y : Bytes}
        → a ≢ b
        → lookup b files ≡ some y
        → lookup b (insert a x files) ≡ some y
    other_file a b x files ne e = ground (arith, lookup-insert a b x files, eq_iff a b, ne, e)

-- The engine opens a database without a change of the files, and a transaction whose function returns
-- no error is committed, which adds nothing to what the function did to them.
pub record IsQuiet (engine : Engine) : Type 0 where
  pub open_ok : (path : String) (d : Disk) → engine.open_raw path d ≡ (ok tt, d)
  pub with_tx_ok :
      (path : String) (body : Act Disk (Unit {0})) (d e : Disk)
      → body d ≡ (ok tt, e)
      → engine.with_tx path body d ≡ (ok tt, e)

-- The checkpoint of a database is busy so many times, and then ends with this disk.
pub data Settles (engine : Engine) (path : String) : ℕ → Disk → Disk → Type 0 where
  done : (d e : Disk) → engine.checkpoint path d ≡ (ok 0, e) → Settles engine path 0 d e
  busy :
      (n k : ℕ) (c d e : Disk)
      → engine.checkpoint path c ≡ (ok (suc k), d)
      → Settles engine path n d e
      → Settles engine path (suc n) c e

module _ (engine : Engine) where
  perform_checkpoint-ends :
      (rounds n : ℕ) (path : String) (d e : Disk)
      → Settles engine path n d e
      → n < rounds
      → perform_checkpoint engine rounds path d ≡ some (ok tt, e)
  unfolding perform_checkpoint
  perform_checkpoint-ends zero n path d e settles enough = absurd (omega arith)
  perform_checkpoint-ends (suc rounds) n path _ _ (done d e last) enough = ground (arith, last)
  perform_checkpoint-ends (suc rounds) _ path _ _ (busy n k c d e waits settles) enough =
      ground (arith, waits, perform_checkpoint-ends rounds n path d e settles (omega arith))

  restore_files-copies :
      (to from : String) (main shm wal : Bytes) (d : Disk)
      → IsQuiet engine
      → d.faults ≡ []
      → HasDatabase from d main shm wal
      → AreApart to from
      → restore_files engine to from d ≡ (ok tt, copied to main shm wal d)
  unfolding restore_files
  restore_files-copies to from main shm wal d quiet calm h apart =
      let copy = copy_database-copies to from main shm wal d calm h apart in
      let e = copied to main shm wal d in
      let inner = quiet.with_tx_ok to (copy_database to from) d e copy in
      ground (
        arith,
        quiet.open_ok to d,
        quiet.open_ok from d,
        quiet.with_tx_ok from (engine.with_tx to (copy_database to from)) d e inner,
      )

  -- The database is copied with its two files, and then the checkpoint is made.
  restore_from-copies :
      (rounds n : ℕ) (to from : String) (main shm wal : Bytes) (d e : Disk)
      → IsQuiet engine
      → d.faults ≡ []
      → HasDatabase from d main shm wal
      → AreApart to from
      → Settles engine to n (copied to main shm wal d) e
      → n < rounds
      → restore_from engine rounds to from d ≡ some (ok tt, e)
  unfolding restore_from checkpointed
  restore_from-copies rounds n to from main shm wal d e quiet calm h apart settles enough =
      ap (checkpointed engine rounds to)
        (restore_files-copies to from main shm wal d quiet calm h apart)
      ∙ perform_checkpoint-ends rounds n to (copied to main shm wal d) e settles enough

-- ===== src/Snapshot.antt =====
-- snapshot/db_snapshot.go: saving the database to a storage and restoring it from there. The two
-- functions of db/sqlite.go that it calls, which Db/Backup and Db/Restore model, are parameters.
pub mod Cleanup
pub mod Locking
pub mod RoundTrip
use marmot.Base.{
  ℕ, zero, suc, String, Bool, true, false, Option, none, some, [], ◌∷◌, if◌then◌else◌,
}
use marmot.Base.Errors.{
  Error, Result, ok, err, panic, sentinel, is_value, pending_snapshot, no_snapshot_found,
}
use marmot.Base.Act.{Act, ◌>>=◌, ◌>>◌, deferred}
use marmot.Base.Paths.{join}
use marmot.Disk.{Disk, mkdir_temp, remove_all}
use marmot.Storage.{Host, Storage, on_disk}

abbrev pub snapshot_file_name : String
snapshot_file_name = "snapshot.db"

-- The pattern without its last character, the star, for which the name's number stands.
abbrev pub temp_dir_pattern : String
temp_dir_pattern = "marmot-snapshot-"

-- `BackupTo` and `GetPath` of the database, and `RestoreFrom`.
pub record SnapshotDb : Type 0 where
  pub path : String
  pub backup_to : String → Act Disk (Unit {0})
  pub restore_from : String → String → Act Disk (Unit {0})

pub record NatsDbSnapshot (R : Type 0) : Type 0 where
  pub db : SnapshotDb
  pub storage : Storage R

-- The host, and the mutex of the snapshot.
pub record Node (R : Type 0) : Type 0 where
  pub host : Host R
  pub locked : Bool

-- The rounds of `cleanupDir` that are left.
unfoldable pub cleanup_rounds : ℕ → String → Disk → Disk
cleanup_rounds zero dir d = d
cleanup_rounds (suc rounds) dir d =
    let (r, d') = remove_all dir d in
    let rest = cleanup_rounds rounds dir d' in elim r [ ok _ ↦ d' | err e ↦ rest | panic m ↦ rest ]

unfoldable pub cleanup_dir : String → Disk → Disk
unfolding cleanup_rounds
cleanup_dir = cleanup_rounds 5

abbrev pub backup_path : String → String
backup_path dir = join (dir ∷ snapshot_file_name ∷ [])

module _ {R : Type 0} (n : NatsDbSnapshot R) where
  open n use {db, storage}

  pub clean_host : String → Host R → Host R
  unfolding cleanup_dir
  clean_host dir h = record h { disk = cleanup_dir dir h.disk }

  pub in_temp_dir : (String → Act (Host R) (Unit {0})) → Act (Host R) (Unit {0})
  unfolding clean_host
  in_temp_dir body =
      on_disk (mkdir_temp temp_dir_pattern) >>= λ dir. deferred (body dir) (clean_host dir)

  save_in : String → Act (Host R) (Unit {0})
  save_in dir =
      on_disk (db.backup_to (backup_path dir))
      >> storage.upload snapshot_file_name (backup_path dir)

  after_download : String → Result (Unit {0}) × Host R → Result (Unit {0}) × Host R
  after_download dir (ok _, h) = on_disk (db.restore_from db.path (backup_path dir)) h
  after_download dir (err e, h) = (if is_value e no_snapshot_found then ok tt else err e, h)
  after_download dir (panic m, h) = (panic m, h)

  restore_in : String → Act (Host R) (Unit {0})
  unfolding after_download
  restore_in dir h = after_download dir (storage.download (backup_path dir) snapshot_file_name h)

  abbrev pub unlocked : Result (Unit {0}) × Host R → Result (Unit {0}) × Node R
  unlocked (r, h) = (r, record { host = h; locked = false })

  -- `SaveSnapshot`
  unfoldable pub save_snapshot : Act (Node R) (Unit {0})
  unfolding in_temp_dir save_in
  save_snapshot s =
      if s.locked
      then (err (sentinel pending_snapshot), s)
      else unlocked (in_temp_dir save_in s.host)

  -- `RestoreSnapshot`; none where it waits for the lock.
  unfoldable pub restore_snapshot : Node R → Option (Result (Unit {0}) × Node R)
  unfolding in_temp_dir restore_in
  restore_snapshot s = if s.locked then none else some (unlocked (in_temp_dir restore_in s.host))

-- ===== src/Tests/Snapshot.antt =====
-- Snapshots at small inputs: a database of one file, and a storage that keeps copies by name.
use marmot.Base.{String, ◌≡◌, refl, arith, true, false, Option, none, some, [], ◌∷◌, string_key}
use marmot.Base.Maps.{Map, lookup, insert}
use marmot.Base.Errors.{Result, ok, err, library, sentinel, no_snapshot_found, pending_snapshot}
use marmot.Base.Act.{Act}
use marmot.Base.Decimal.{decimal}
use marmot.Disk.{Disk, Bytes, removed}
use marmot.Db.Restore.{copy_file}
use marmot.Base.Paths.{join, clean}
use marmot.Storage.{Host}
use marmot.Storage.Refined.{storage_of, view_of, storage_of-IsStorage}
use marmot.Snapshot.{SnapshotDb, NatsDbSnapshot, Node, backup_path, save_snapshot, restore_snapshot}
use marmot.Snapshot.Locking.{next_dir, with_dir, IsCalm, IsClean, snapshot-IsClean}
use marmot.Snapshot.RoundTrip.{downloaded, restore_snapshot-save_snapshot}
use marmot.Tests.Storage.{Server, backend, host, disk}

abbrev db_path : String
db_path = "/data/marmot.db"

abbrev bytes_or_none : Option Bytes → Bytes
bytes_or_none none = []
bytes_or_none (some b) = b

abbrev image : Map String Bytes → Bytes
image files = bytes_or_none (lookup db_path files)

abbrev db : SnapshotDb
db = record {
  path = db_path;
  backup_to = λ path d. (ok tt, record d { files = insert path (image d.files) d.files });
  restore_from = copy_file;
}

abbrev source : Node Server
source = record {
  host = record host { disk = record disk { files = (db_path, 1 ∷ 2 ∷ 3 ∷ []) ∷ [] } };
  locked = false;
}

abbrev snapshot : NatsDbSnapshot Server
snapshot = record { db = db; storage = storage_of backend }

abbrev target : Node Server
target = record {
  host = record { disk = disk; remote = (save_snapshot snapshot source).1.host.remote };
  locked = false;
}

-- The disk of the second node as RestoreFrom finds it.
abbrev to_restore : Disk
to_restore =
    downloaded (view_of backend) snapshot (storage_of-IsStorage backend) (1 ∷ 2 ∷ 3 ∷ [])
      target.host

abbrev backed_up : Disk
backed_up = (db.backup_to (backup_path (next_dir source.host.disk)) (with_dir source.host).disk).1

restore_snapshot-save_snapshot_example :
    ((save_snapshot snapshot source).0 ≡ ok tt)
    × (t : Node Server) × (restore_snapshot snapshot target ≡ some (ok tt, t))
    × (t.host.disk
        ≡ removed
            (next_dir target.host.disk)
            (record to_restore { files = insert db_path (1 ∷ 2 ∷ 3 ∷ []) to_restore.files }))
    × (t.locked ≡ false)
unfolding decimal lookup view_of copy_file join clean insert
restore_snapshot-save_snapshot_example =
    restore_snapshot-save_snapshot (view_of backend) snapshot snapshot
      (storage_of-IsStorage backend) (storage_of-IsStorage backend) source target backed_up
      (record to_restore { files = insert db_path (1 ∷ 2 ∷ 3 ∷ []) to_restore.files })
      (1 ∷ 2 ∷ 3 ∷ []) (ok tt) refl refl (record { no_faults = refl; up = omega arith }) refl refl
      refl refl refl refl refl

-- A storage that is a map of its own, and refuses what it does not have.
abbrev put : Option Bytes → String → Act (Host (Map String Bytes)) (Unit {0})
put none name h = (err (library "no such file"), h)
put (some b) name h = (ok tt, record h { remote = insert name b h.remote })

abbrev fetch : Option Bytes → String → Act (Host (Map String Bytes)) (Unit {0})
fetch none path h = (err (sentinel no_snapshot_found), h)
fetch (some b) path h =
    (ok tt, record h { disk = record h.disk { files = insert path b h.disk.files } })

abbrev shelf : NatsDbSnapshot (Map String Bytes)
shelf = record {
  db = db;
  storage = record {
    upload = λ name path h. put (lookup path h.disk.files) name h;
    download = λ path name h. fetch (lookup name h.remote) path h;
  };
}

copy_file-calm : (to path : String) (d : Disk) → d.faults ≡ [] → (copy_file to path d).1.faults ≡ []
unfolding copy_file
copy_file-calm to path d calm = ground (arith, calm)

shelf-IsCalm : IsCalm shelf
shelf-IsCalm = record {
  backup_to = λ path d calm. calm;
  restore_from = copy_file-calm;
  upload = λ name path h calm. ground (arith, calm);
  download = λ path name h calm. ground (arith, calm);
}

abbrev node : Node (Map String Bytes)
node = record { host = record { disk = source.host.disk; remote = [] }; locked = false }

snapshot-IsClean_example :
    ((node.locked ≡ true → save_snapshot shelf node ≡ (err (sentinel pending_snapshot), node))
      × (node.locked ≡ false → IsClean shelf node (save_snapshot shelf node).1))
    × ((node.locked ≡ true → restore_snapshot shelf node ≡ none)
        × (node.locked ≡ false
            → (r : Result (Unit {0})) × (t : Node (Map String Bytes)) × (restore_snapshot shelf node
                ≡ some (r, t))
              × IsClean shelf node t))
snapshot-IsClean_example = snapshot-IsClean shelf shelf-IsCalm node refl

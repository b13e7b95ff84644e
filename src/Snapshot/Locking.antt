-- ===== src/Snapshot/Locking.antt =====
-- The lock and the temporary directory of a snapshot, on every path.
use Prim.Native.String.{◌++◌}
use marmot.Base.{
  suc, String, ◌≡◌, refl, ap, arith, true, false, not, none, some, List, [], ◌∷◌, All, keep_if,
  Bool-cases, inl, inr, string_key,
}
use marmot.Base.Maps.{lookup}
use marmot.Base.Errors.{Result, ok, err, panic, sentinel, pending_snapshot}
use marmot.Base.Act.{Act, ◌>>=◌, deferred}
use marmot.Base.Decimal.{decimal}
use marmot.Disk.{Disk, is_under, mkdir_temp, removed}
use marmot.Disk.Removed.{lookup-files_outside}
use marmot.Storage.{Host, on_disk}
use marmot.Snapshot.{
  NatsDbSnapshot, Node, save_snapshot, restore_snapshot, in_temp_dir, clean_host, temp_dir_pattern,
  save_in, restore_in, after_download, backup_path, snapshot_file_name,
}
use marmot.Snapshot.Cleanup.{cleanup_dir-removed}

-- The directory has neither files nor a name on the disk.
pub record IsGone (dir : String) (d : Disk) : Type 0 where
  pub no_files : (path : String) → is_under dir path ≡ true → lookup path d.files ≡ none
  pub no_dir : All (λ other. is_under dir other ≡ false) d.dirs

keep_if-All :
    (dir : String) (dirs : List String)
    → All (λ other. is_under dir other ≡ false) (keep_if (λ other. not (is_under dir other)) dirs)
keep_if-All dir [] = tt
keep_if-All dir (d ∷ dirs) = elim (Bool-cases (is_under dir d)) [
  | inl e ↦ rw e (keep_if-All dir dirs)
  | inr e ↦ rw e (e, keep_if-All dir dirs)
]

pub removed-IsGone : (dir : String) (d : Disk) → IsGone dir (removed dir d)
removed-IsGone dir d = record {
  no_files = λ path under. ground (arith, lookup-files_outside dir path d.files, under);
  no_dir = keep_if-All dir d.dirs;
}

-- The name that `MkdirTemp` gives next.
abbrev pub next_dir : Disk → String
next_dir d = "/tmp/" ++ (temp_dir_pattern ++ decimal d.next_temp)

abbrev pub with_dir : {R : Type 0} → Host R → Host R
with_dir h = record h {
  disk = record h.disk { dirs = next_dir h.disk ∷ h.disk.dirs; next_temp = suc h.disk.next_temp };
}

-- A database and a storage that meet no fault on a disk that has none ahead leave none ahead.
pub record IsCalm {R : Type 0} (n : NatsDbSnapshot R) : Type 0 where
  pub backup_to : (path : String) (d : Disk) → d.faults ≡ [] → (n.db.backup_to path d).1.faults ≡ []
  pub restore_from :
      (to path : String) (d : Disk) → d.faults ≡ [] → (n.db.restore_from to path d).1.faults ≡ []
  pub upload :
      (name path : String) (h : Host R)
      → h.disk.faults ≡ []
      → (n.storage.upload name path h).1.disk.faults ≡ []
  pub download :
      (path name : String) (h : Host R)
      → h.disk.faults ≡ []
      → (n.storage.download path name h).1.disk.faults ≡ []

mkdir_temp-calm :
    (d : Disk)
    → d.faults ≡ []
    → mkdir_temp temp_dir_pattern d
      ≡ (ok (next_dir d), record d { dirs = next_dir d ∷ d.dirs; next_temp = suc d.next_temp })
unfolding mkdir_temp
mkdir_temp-calm d calm = ground (arith, calm)

module _ {R : Type 0} (n : NatsDbSnapshot R) where
  -- What is run in the new directory, and then the directory is cleaned up.
  pub in_temp_dir-runs :
      (body : String → Act (Host R) (Unit {0})) (h : Host R)
      → h.disk.faults ≡ []
      → in_temp_dir n body h ≡ (
        (body (next_dir h.disk) (with_dir h)).0,
        clean_host n (next_dir h.disk) (body (next_dir h.disk) (with_dir h)).1,
      )
  unfolding in_temp_dir
  in_temp_dir-runs body h calm =
      ap
        (λ (x : Result String × Disk).
          (on_disk (λ _. x) >>= λ dir. deferred (body dir) (clean_host n dir)) h)
        (mkdir_temp-calm h.disk calm)

  clean_host-IsGone :
      (dir : String) (h : Host R) → h.disk.faults ≡ [] → IsGone dir (clean_host n dir h).disk
  unfolding clean_host
  clean_host-IsGone dir h calm =
      rw (cleanup_dir-removed dir h.disk calm) (removed-IsGone dir h.disk)

  in_temp_dir-IsGone :
      (body : String → Act (Host R) (Unit {0})) (h : Host R)
      → h.disk.faults ≡ []
      → (body (next_dir h.disk) (with_dir h)).1.disk.faults ≡ []
      → IsGone (next_dir h.disk) (in_temp_dir n body h).1.disk
  in_temp_dir-IsGone body h calm still =
      let dir = next_dir h.disk in
      rw (in_temp_dir-runs body h calm) (clean_host-IsGone dir (body dir (with_dir h)).1 still)

  save_in-calm :
      IsCalm n
      → (dir : String) (h : Host R) → h.disk.faults ≡ []
      → (save_in n dir h).1.disk.faults ≡ []
  unfolding save_in
  save_in-calm c dir h calm =
      let saved = n.db.backup_to (backup_path dir) h.disk in
      ground (
        arith,
        c.backup_to (backup_path dir) h.disk calm,
        c.upload snapshot_file_name (backup_path dir) (record h { disk = saved.1 }),
      )

  after_download-calm :
      IsCalm n
      → (dir : String) (x : Result (Unit {0}) × Host R) → x.1.disk.faults ≡ []
      → (after_download n dir x).1.disk.faults ≡ []
  unfolding after_download
  after_download-calm c dir (ok a, h) calm = c.restore_from n.db.path (backup_path dir) h.disk calm
  after_download-calm c dir (err e, h) calm = calm
  after_download-calm c dir (panic m, h) calm = calm

  restore_in-calm :
      IsCalm n
      → (dir : String) (h : Host R) → h.disk.faults ≡ []
      → (restore_in n dir h).1.disk.faults ≡ []
  unfolding restore_in
  restore_in-calm c dir h calm =
      after_download-calm c dir (n.storage.download (backup_path dir) snapshot_file_name h)
        (c.download (backup_path dir) snapshot_file_name h calm)

  -- What a snapshot leaves behind: a free lock, and nothing of its directory.
  pub record IsClean (before : Node R) (after : Node R) : Type 0 where
    pub free : after.locked ≡ false
    pub gone : IsGone (next_dir before.host.disk) after.host.disk

  save_snapshot-IsClean :
      IsCalm n
      → (s : Node R) → s.host.disk.faults ≡ []
      → (s.locked ≡ true → save_snapshot n s ≡ (err (sentinel pending_snapshot), s))
        × (s.locked ≡ false → IsClean s (save_snapshot n s).1)
  unfolding save_snapshot
  save_snapshot-IsClean c s calm =
      let still = save_in-calm c (next_dir s.host.disk) (with_dir s.host) calm in
      (
        λ held. rw held refl,
        λ unheld.
            rw unheld
              (record { free = refl; gone = in_temp_dir-IsGone (save_in n) s.host calm still }),
      )

  restore_snapshot-IsClean :
      IsCalm n
      → (s : Node R) → s.host.disk.faults ≡ []
      → (s.locked ≡ true → restore_snapshot n s ≡ none)
        × (s.locked ≡ false
            → (r : Result (Unit {0})) × (t : Node R) × (restore_snapshot n s ≡ some (r, t))
              × IsClean s t)
  unfolding restore_snapshot
  restore_snapshot-IsClean c s calm =
      let still = restore_in-calm c (next_dir s.host.disk) (with_dir s.host) calm in
      (
        λ held. rw held refl,
        λ unheld. (
          (in_temp_dir n (restore_in n) s.host).0,
          record { host = (in_temp_dir n (restore_in n) s.host).1; locked = false },
          rw unheld refl,
          record { free = refl; gone = in_temp_dir-IsGone (restore_in n) s.host calm still },
        ),
      )

  -- With a database and a storage that meet no fault on a disk that has none ahead: while the lock
  -- is held SaveSnapshot changes nothing and returns ErrPendingSnapshot, and RestoreSnapshot waits;
  -- while it is free both return, whatever they return, with the lock free and nothing of their
  -- temporary directory on the disk.
  pub snapshot-IsClean :
      IsCalm n
      → (s : Node R) → s.host.disk.faults ≡ []
      → ((s.locked ≡ true → save_snapshot n s ≡ (err (sentinel pending_snapshot), s))
          × (s.locked ≡ false → IsClean s (save_snapshot n s).1))
        × ((s.locked ≡ true → restore_snapshot n s ≡ none)
            × (s.locked ≡ false
                → (r : Result (Unit {0})) × (t : Node R) × (restore_snapshot n s ≡ some (r, t))
                  × IsClean s t))
  snapshot-IsClean c s calm = (save_snapshot-IsClean c s calm, restore_snapshot-IsClean c s calm)

-- ===== src/Snapshot/RoundTrip.antt =====
-- What one node backs up is, byte for byte, what another restores from, for any storage that keeps its
-- contract.
use marmot.Base.{String, ◌≡◌, refl, sym, subst, ap, ◌∙◌, arith, false, none, some, [], string_key}
use marmot.Base.Maps.{lookup, insert}
use marmot.Base.Errors.{Result, ok}
use marmot.Disk.{Disk, Bytes, is_under, removed}
use marmot.Disk.Removed.{lookup-files_outside}
use marmot.Storage.{Host, View, IsReady, IsStorage}
use marmot.Snapshot.{
  NatsDbSnapshot, Node, save_snapshot, restore_snapshot, clean_host, save_in, restore_in,
  after_download, backup_path, snapshot_file_name,
}
use marmot.Snapshot.Cleanup.{cleanup_dir-removed}
use marmot.Snapshot.Locking.{next_dir, with_dir, in_temp_dir-runs}

module _ {R : Type 0} (v : View R) (n : NatsDbSnapshot R) (storage : IsStorage n.storage v) where
  -- A backup that returned is stored as it is in its file.
  save_snapshot-stores :
      (s : Node R) (d : Disk) (b : Bytes)
      → s.locked ≡ false
      → IsReady v s.host
      → let at = backup_path (next_dir s.host.disk) in
        n.db.backup_to at (with_dir s.host).disk ≡ (ok tt, d)
        → d.faults ≡ []
        → lookup at d.files ≡ some b
        → ((save_snapshot n s).0 ≡ ok tt)
          × v.IsUp (save_snapshot n s).1.host.remote
          × (v.stored (save_snapshot n s).1.host.remote snapshot_file_name ≡ some b)
  unfolding save_snapshot clean_host save_in
  save_snapshot-stores s d b free ready backup calm written =
      let at = backup_path (next_dir s.host.disk) in
      let h : Host R = record { disk = d; remote = s.host.remote } in
      let (w, uploaded, up, stored) =
        storage.upload_stores snapshot_file_name at b h (record { no_faults = calm; up = ready.up })
          written in
      let saved : save_in n (next_dir s.host.disk) (with_dir s.host)
          ≡ (ok tt, record { disk = d; remote = w }) =
        ground (arith, backup, uploaded) in
      rw (free, in_temp_dir-runs n (save_in n) s.host ready.no_faults, saved) (refl, up, stored)

  -- The disk with a file of what is stored.
  abbrev pub downloaded : Bytes → Host R → Disk
  downloaded b h = record (with_dir h).disk {
    files = insert (backup_path (next_dir h.disk)) b h.disk.files;
  }

  -- What is stored is given to RestoreFrom as it is.
  restore_snapshot-restores :
      (s : Node R) (b : Bytes) (r : Result (Unit {0})) (d : Disk)
      → s.locked ≡ false
      → IsReady v s.host
      → v.stored s.host.remote snapshot_file_name ≡ some b
      → n.db.restore_from n.db.path (backup_path (next_dir s.host.disk)) (downloaded b s.host)
        ≡ (r, d)
      → d.faults ≡ []
      → (t : Node R) × (restore_snapshot n s ≡ some (r, t))
        × (t.host.disk ≡ removed (next_dir s.host.disk) d)
        × (t.locked ≡ false)
  unfolding restore_snapshot clean_host restore_in after_download
  restore_snapshot-restores s b r d free ready e restores calm =
      let dir = next_dir s.host.disk in
      let (w, got, up, same) =
        storage.download_gets (backup_path dir) snapshot_file_name b (with_dir s.host)
          (record { no_faults = ready.no_faults; up = ready.up }) e in
      let h : Host R = record { disk = downloaded b s.host; remote = w } in
      let ran : restore_in n dir (with_dir s.host) ≡ (r, record { disk = d; remote = w }) =
        ap (after_download n dir) got
        ∙ ap (λ (x : Result (Unit {0}) × Disk). (x.0, record h { disk = x.1 })) restores in
      (
        record { host = record { disk = removed dir d; remote = w }; locked = false },
        rw
            (
              free,
              in_temp_dir-runs n (restore_in n) s.host ready.no_faults,
              ran,
              cleanup_dir-removed dir d calm,
            )
            refl,
        refl,
        refl,
      )

  restore_in-misses :
      (dir : String) (h : Host R)
      → IsReady v h
      → v.stored h.remote snapshot_file_name ≡ none
      → (w : R) × (restore_in n dir h ≡ (ok tt, record h { remote = w }))
  unfolding restore_in after_download
  restore_in-misses dir h ready e =
      let (w, missed, up, same) =
        storage.download_missing (backup_path dir) snapshot_file_name h ready e in
      (w, ap (after_download n dir) missed)

  -- Where nothing is stored, the restore returns no error, and the files outside of its directory stay.
  restore_snapshot-keeps :
      (s : Node R)
      → s.locked ≡ false
      → IsReady v s.host
      → v.stored s.host.remote snapshot_file_name ≡ none
      → (t : Node R) × (restore_snapshot n s ≡ some (ok tt, t))
        × ((path : String)
            → is_under (next_dir s.host.disk) path ≡ false
            → lookup path t.host.disk.files ≡ lookup path s.host.disk.files)
  unfolding restore_snapshot clean_host
  restore_snapshot-keeps s free ready e =
      let dir = next_dir s.host.disk in
      let h = with_dir s.host in
      let (w, missed) =
        restore_in-misses dir h (record { no_faults = ready.no_faults; up = ready.up }) e in
      (
        record { host = record { disk = removed dir h.disk; remote = w }; locked = false },
        rw
            (
              free,
              in_temp_dir-runs n (restore_in n) s.host ready.no_faults,
              missed,
              cleanup_dir-removed dir h.disk ready.no_faults,
            )
            refl,
        λ path outside. rw (lookup-files_outside dir path s.host.disk.files, outside) refl,
      )

module _ {R : Type 0} (v : View R) (n m : NatsDbSnapshot R) (from : IsStorage n.storage v)
    (to : IsStorage m.storage v) where
  -- Over any storage that keeps its contract, with a remote side that answers and free locks: if
  -- BackupTo on one node returns no error, leaves some bytes in its file and no fault ahead on the
  -- disk, then SaveSnapshot returns no error. If RestoreSnapshot then begins on another node, on a
  -- disk without faults ahead, it calls RestoreFrom for that node's database with a file of exactly
  -- those bytes; and unless that leaves a fault ahead, RestoreSnapshot returns what RestoreFrom
  -- returns, and leaves the lock free and the disk that RestoreFrom left, without the temporary
  -- directory.
  pub restore_snapshot-save_snapshot :
      (s t : Node R) (saved restored : Disk) (b : Bytes) (r : Result (Unit {0}))
      → s.locked ≡ false
      → t.locked ≡ false
      → IsReady v s.host
      → n.db.backup_to (backup_path (next_dir s.host.disk)) (with_dir s.host).disk ≡ (ok tt, saved)
      → saved.faults ≡ []
      → lookup (backup_path (next_dir s.host.disk)) saved.files ≡ some b
      → t.host.disk.faults ≡ []
      → t.host.remote ≡ (save_snapshot n s).1.host.remote
      → m.db.restore_from m.db.path
          (backup_path (next_dir t.host.disk))
          (downloaded v m to b t.host)
        ≡ (r, restored)
      → restored.faults ≡ []
      → ((save_snapshot n s).0 ≡ ok tt)
        × (t' : Node R) × (restore_snapshot m t ≡ some (r, t'))
        × (t'.host.disk ≡ removed (next_dir t.host.disk) restored)
        × (t'.locked ≡ false)
  restore_snapshot-save_snapshot s t saved restored b r free free' ready backup calm written calm' e
        restores calm'' =
      let (fine, up, stored) =
        save_snapshot-stores v n from s saved b free ready backup calm written in
      let (t', ran, disk, unlocked) =
        restore_snapshot-restores v m to t b r restored free'
          (record { no_faults = calm'; up = subst v.IsUp (sym e) up }) (rw e stored) restores
          calm'' in
      (fine, t', ran, disk, unlocked)

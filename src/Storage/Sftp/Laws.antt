-- ===== src/Storage/Sftp/Laws.antt =====
-- The SFTP storage keeps the storage's contract, over a client that keeps a file for each path.
use text.Mathlib.TextEquality.{eq_iff}
use marmot.Base.{String, ◌≡◌, ◌≢◌, refl, arith, Option, none, some, [], ◌∷◌, string_key}
use marmot.Base.Maps.{lookup, insert, insert_twice}
use marmot.Base.Errors.{Error, ok, err, sentinel, no_snapshot_found}
use marmot.Base.Paths.{join}
use marmot.Disk.{Bytes}
use marmot.Storage.{Host, View, IsReady, IsStorage}
use marmot.Storage.Sftp.{Client, SftpStorage, sftp_storage, upload, download, missing, missing_text}

-- The documented behaviour of the client, for the files of a server whose calls succeed: a file that
-- is opened to be written is empty, and reading what was written gives it back.
pub record IsClient {R : Type 0} (client : Client R) (file_at : R → String → Option Bytes)
    (IsUp : R → Type 0) : Type 0 where
  pub mkdir_ok :
      (dir : String) (w : R)
      → IsUp w
      → (v : R) × (client.mkdir_all dir w ≡ (ok tt, v))
        × IsUp v
        × ((p : String) → file_at v p ≡ file_at w p)
  pub open_truncated_ok :
      (path : String) (w : R)
      → IsUp w
      → (v : R) × (client.open_truncated path w ≡ (ok tt, v))
        × IsUp v
        × (file_at v path ≡ some [])
        × ((p : String) → p ≢ path → file_at v p ≡ file_at w p)
  pub read_from_ok :
      (path : String) (b : Bytes) (w : R)
      → IsUp w
      → file_at w path ≡ some []
      → (v : R) × (client.read_from path b w ≡ (ok tt, v))
        × IsUp v
        × (file_at v path ≡ some b)
        × ((p : String) → p ≢ path → file_at v p ≡ file_at w p)
  pub open_ok :
      (path : String) (b : Bytes) (w : R)
      → IsUp w
      → file_at w path ≡ some b
      → client.open_remote path w ≡ (ok tt, w)
  pub open_missing :
      (path : String) (w : R)
      → IsUp w
      → file_at w path ≡ none
      → (e : Error) × (client.open_remote path w ≡ (err e, w))
        × (client.error_text e ≡ missing_text)
  pub read_ok :
      (path : String) (b : Bytes) (w : R)
      → IsUp w
      → file_at w path ≡ some b
      → client.read_remote path w ≡ (ok b, w)

module _ {R : Type 0} (s : SftpStorage R) (file_at : R → String → Option Bytes) (IsUp : R → Type 0)
    (laws : IsClient s.client file_at IsUp) where
  abbrev pub view : View R
  view = record { stored = λ w name. file_at w (join (s.upload_path ∷ name ∷ [])); IsUp = IsUp }

  upload-stores :
      (name path : String) (b : Bytes) (h : Host R)
      → IsReady view h
      → lookup path h.disk.files ≡ some b
      → (w : R) × (upload s name path h ≡ (ok tt, record h { remote = w }))
        × IsUp w
        × (view.stored w name ≡ some b)
  unfolding upload
  upload-stores name path b h ready e =
      let at = join (s.upload_path ∷ name ∷ []) in
      let (w1, e1, up1, k1) = laws.mkdir_ok s.upload_path h.remote ready.up in
      let (w2, e2, up2, f2, k2) = laws.open_truncated_ok at w1 up1 in
      let (w3, e3, up3, f3, k3) = laws.read_from_ok at b w2 up2 f2 in
      (w3, ground (arith, e1, ready.no_faults, e, e2, e3), up3, f3)

  download-gets :
      (path name : String) (b : Bytes) (h : Host R)
      → IsReady view h
      → view.stored h.remote name ≡ some b
      → download s path name h
        ≡ (ok tt, record h { disk = record h.disk { files = insert path b h.disk.files } })
  unfolding download
  download-gets path name b h ready e =
      let e1 = laws.open_ok (join (s.upload_path ∷ name ∷ [])) b h.remote ready.up e in
      let e2 = laws.read_ok (join (s.upload_path ∷ name ∷ [])) b h.remote ready.up e in
      ground (arith, e1, e2, ready.no_faults, insert_twice path [] b h.disk.files)

  download-missing :
      (path name : String) (h : Host R)
      → IsReady view h
      → view.stored h.remote name ≡ none
      → download s path name h ≡ (err (sentinel no_snapshot_found), h)
  unfolding download missing
  download-missing path name h ready e =
      let (x, e1, e2) = laws.open_missing (join (s.upload_path ∷ name ∷ [])) h.remote ready.up e in
      ground (arith, e1, e2, eq_iff (s.client.error_text x) missing_text)

  pub sftp_storage-IsStorage : IsStorage (sftp_storage s) view
  sftp_storage-IsStorage = record {
    upload_stores = upload-stores;
    download_gets = λ path name b h ready e.
        (h.remote, download-gets path name b h ready e, ready.up, λ other. refl);
    download_missing = λ path name h ready e.
        (h.remote, download-missing path name h ready e, ready.up, λ other. refl);
  }

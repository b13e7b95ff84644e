-- ===== src/Storage/S3/Laws.antt =====
-- The S3 storage keeps the storage's contract, over a client that keeps an object for each path.
use marmot.Base.{String, ◌≡◌, refl, arith, Option, none, some, string_key}
use marmot.Base.Maps.{lookup, insert}
use marmot.Base.Errors.{Error, ok, err, sentinel, no_snapshot_found}
use marmot.Cfg.{S3Configuration}
use marmot.Disk.{Bytes}
use marmot.Storage.{Host, View, IsReady, IsStorage}
use marmot.Storage.S3.{Client, s3_storage, bucket_path, upload, download, missing}

-- The documented behaviour of the client, while its calls succeed: an object that was put is got.
pub record IsClient {R : Type 0} (client : Client R) (bucket : String)
    (object_at : R → String → Option Bytes) (IsUp : R → Type 0) : Type 0 where
  pub put_ok :
      (path : String) (b : Bytes) (w : R)
      → IsUp w
      → (v : R) × (client.put_object bucket path b w ≡ (ok tt, v))
        × IsUp v
        × (object_at v path ≡ some b)
  pub get_ok :
      (path : String) (b : Bytes) (w : R)
      → IsUp w
      → object_at w path ≡ some b
      → client.get_object bucket path w ≡ (ok b, w)
  pub get_missing :
      (path : String) (w : R)
      → IsUp w
      → object_at w path ≡ none
      → (e : Error) × (client.get_object bucket path w ≡ (err e, w))
        × (client.status_code e ≡ some 404)

module _ {R : Type 0} (c : S3Configuration) (client : Client R)
    (object_at : R → String → Option Bytes) (IsUp : R → Type 0)
    (laws : IsClient client c.bucket object_at IsUp) where
  abbrev pub view : View R
  view = record { stored = λ w name. object_at w (bucket_path c client name); IsUp = IsUp }

  upload-stores :
      (name path : String) (b : Bytes) (h : Host R)
      → IsReady view h
      → lookup path h.disk.files ≡ some b
      → (w : R) × (upload c client name path h ≡ (ok tt, record h { remote = w }))
        × IsUp w
        × (view.stored w name ≡ some b)
  unfolding upload
  upload-stores name path b h ready e =
      let (w, put, up, at) = laws.put_ok (bucket_path c client name) b h.remote ready.up in
      (w, ground (arith, put, ready.no_faults, e), up, at)

  download-gets :
      (path name : String) (b : Bytes) (h : Host R)
      → IsReady view h
      → view.stored h.remote name ≡ some b
      → download c client path name h
        ≡ (ok tt, record h { disk = record h.disk { files = insert path b h.disk.files } })
  unfolding download
  download-gets path name b h ready e =
      let got = laws.get_ok (bucket_path c client name) b h.remote ready.up e in
      ground (arith, got, ready.no_faults)

  download-missing :
      (path name : String) (h : Host R)
      → IsReady view h
      → view.stored h.remote name ≡ none
      → download c client path name h ≡ (err (sentinel no_snapshot_found), h)
  unfolding download missing
  download-missing path name h ready e =
      let (x, got, code) = laws.get_missing (bucket_path c client name) h.remote ready.up e in
      ground (arith, got, code)

  pub s3_storage-IsStorage : IsStorage (s3_storage c client) view
  s3_storage-IsStorage = record {
    upload_stores = upload-stores;
    download_gets = λ path name b h ready e.
        (h.remote, download-gets path name b h ready e, ready.up, λ other. refl);
    download_missing = λ path name h ready e.
        (h.remote, download-missing path name h ready e, ready.up, λ other. refl);
  }

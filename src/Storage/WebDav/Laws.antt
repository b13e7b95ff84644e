-- ===== src/Storage/WebDav/Laws.antt =====
-- The WebDAV storage keeps the storage's contract, over a client that keeps a file for each path.
use marmot.Base.{
  ℕ, String, true, ◌≡◌, refl, arith, ◌⊎◌, inl, inr, Option, none, some, [], ◌∷◌, string_key,
}
use marmot.Base.Maps.{lookup, insert, insert_twice}
use marmot.Base.Errors.{Error, ok, err, sentinel, no_snapshot_found}
use marmot.Base.Paths.{join}
use marmot.Disk.{Bytes}
use marmot.Storage.{Host, View, IsReady, IsStorage}
use marmot.Storage.WebDav.{
  Client, WebDavStorage, web_dav_storage, temp_name, make_storage_path, exists_already, upload,
  download, missing,
}

-- The documented behaviour of the client, while its calls succeed. A directory that exists may be
-- refused as a conflict. A file may be named with the leading slash or without.
pub record IsClient {R : Type 0} (client : Client R) (dir : String)
    (file_at : R → String → Option Bytes) (IsUp : R → Type 0) : Type 0 where
  pub mkdir_ok :
      (w : R)
      → IsUp w
      → (v : R) × IsUp v
        × ((client.mkdir_all dir w ≡ (ok tt, v))
            ⊎ ((e : Error) × (client.mkdir_all dir w ≡ (err e, v)) × (client.status e ≡ some 409)))
  pub write_ok :
      (path : String) (b : Bytes) (w : R)
      → IsUp w
      → (v : R) × (client.write_stream path b w ≡ (ok tt, v)) × IsUp v × (file_at v path ≡ some b)
  pub rename_ok :
      (path to : String) (b : Bytes) (w : R)
      → IsUp w
      → file_at w path ≡ some b
      → (v : R) × (client.rename path to true w ≡ (ok tt, v)) × IsUp v × (file_at v to ≡ some b)
  pub rooted :
      (w : R) (name : String)
      → file_at w (join ("/" ∷ dir ∷ name ∷ [])) ≡ file_at w (join (dir ∷ name ∷ []))
  pub read_ok :
      (path : String) (b : Bytes) (w : R)
      → IsUp w
      → file_at w path ≡ some b
      → client.read_stream path w ≡ (ok b, w)
  pub read_missing :
      (path : String) (w : R)
      → IsUp w
      → file_at w path ≡ none
      → (e : Error) × (client.read_stream path w ≡ (err e, w)) × (client.status e ≡ some 404)

module _ {R : Type 0} (s : WebDavStorage R) (node_name : String) (now : ℕ)
    (file_at : R → String → Option Bytes) (IsUp : R → Type 0)
    (laws : IsClient s.client s.path file_at IsUp) where
  abbrev pub view : View R
  view = record { stored = λ w name. file_at w (join (s.path ∷ name ∷ [])); IsUp = IsUp }

  make_storage_path-ok : (w : R) → IsUp w → (v : R) × IsUp v × (make_storage_path s w ≡ (ok tt, v))
  unfolding make_storage_path exists_already
  make_storage_path-ok w up =
      let (v, up', made) = laws.mkdir_ok w up in
      elim made [
        | inl done ↦ (v, up', ground (arith, done))
        | inr (e, refused, code) ↦ (v, up', ground (arith, refused, code))
      ]

  upload-stores :
      (name path : String) (b : Bytes) (h : Host R)
      → IsReady view h
      → lookup path h.disk.files ≡ some b
      → (w : R) × (upload s node_name now name path h ≡ (ok tt, record h { remote = w }))
        × IsUp w
        × (view.stored w name ≡ some b)
  unfolding upload
  upload-stores name path b h ready e =
      let at = temp_name s node_name now name in
      let to = join ("/" ∷ s.path ∷ name ∷ []) in
      let (w1, up1, e1) = make_storage_path-ok h.remote ready.up in
      let (w2, e2, up2, f2) = laws.write_ok at b w1 up1 in
      let (w3, e3, up3, f3) = laws.rename_ok at to b w2 up2 f2 in
      (w3, ground (arith, ready.no_faults, e, e1, e2, e3), up3, rw (← laws.rooted w3 name) f3)

  download-gets :
      (path name : String) (b : Bytes) (h : Host R)
      → IsReady view h
      → view.stored h.remote name ≡ some b
      → download s path name h
        ≡ (ok tt, record h { disk = record h.disk { files = insert path b h.disk.files } })
  unfolding download
  download-gets path name b h ready e =
      let got = laws.read_ok (join (s.path ∷ name ∷ [])) b h.remote ready.up e in
      ground (arith, got, ready.no_faults, insert_twice path [] b h.disk.files)

  download-missing :
      (path name : String) (h : Host R)
      → IsReady view h
      → view.stored h.remote name ≡ none
      → download s path name h ≡ (err (sentinel no_snapshot_found), h)
  unfolding download missing
  download-missing path name h ready e =
      let (x, got, code) = laws.read_missing (join (s.path ∷ name ∷ [])) h.remote ready.up e in
      ground (arith, got, code)

  pub web_dav_storage-IsStorage : IsStorage (web_dav_storage s node_name now) view
  web_dav_storage-IsStorage = record {
    upload_stores = upload-stores;
    download_gets = λ path name b h ready e.
        (h.remote, download-gets path name b h ready e, ready.up, λ other. refl);
    download_missing = λ path name h ready e.
        (h.remote, download-missing path name h ready e, ready.up, λ other. refl);
  }

-- ===== src/Storage/Nats/Laws.antt =====
-- The JetStream storage keeps the storage's contract, over a client that keeps an object for each name,
-- and the loop of `Download` ends once the server answers.
use marmot.Base.Int.{ℤ}
use marmot.Base.{
  false, ◌<◌, ℕ, zero, suc, String, ◌≡◌, refl, ◌∙◌, arith, ◌⊎◌, inl, inr, Option, none, some, [],
  string_key,
}
use marmot.Base.Hex.{hex}
use marmot.Base.Fnv.{fnv64}
use marmot.Base.Maps.{Map, lookup, insert}
use marmot.Base.Errors.{
  Error, Result, ok, err, is_value, sentinel, no_snapshot_found, object_not_found, stream_not_found,
}
use marmot.Cfg.{Configuration}
use marmot.Disk.{Disk, Bytes}
use marmot.Storage.{Host, View, IsReady, IsStorage}
use marmot.Storage.Nats.{
  Client, nats_storage, blob_bucket_name, file_hash, get_blob_store, create_if_missing, delete_old,
  unless_missing, get_file, again, failed_with, upload, download, download_loop,
}

-- The answer of the server at which the loop waits.
abbrev pub Unavailable : {R : Type 0} → Client R → Error → Type 0
Unavailable client e = (client.api_code e ≡ some 503) × (is_value e object_not_found ≡ false)

-- The documented behaviour of the client, where `IsUp n` means that calls succeed, but that a file may
-- be refused as unavailable up to `n` times.
pub record IsClient {R : Type 0} (client : Client R) (bucket : String)
    (object_at : R → String → Option Bytes) (IsUp : ℕ → R → Type 0) : Type 0 where
  pub jet_stream_ok : (n : ℕ) (w : R) → IsUp n w → client.jet_stream w ≡ (ok tt, w)
  pub object_store_ok :
      (n : ℕ) (w : R)
      → IsUp n w
      → (client.object_store bucket w ≡ (ok tt, w))
        ⊎ (client.object_store bucket w ≡ (err (sentinel stream_not_found), w))
  pub create_ok :
      (n : ℕ) (replicas : ℤ) (w : R)
      → IsUp n w
      → client.object_store bucket w ≡ (err (sentinel stream_not_found), w)
      → (v : R) × (client.create_object_store bucket replicas w ≡ (ok tt, v))
        × IsUp n v
        × ((name : String) → object_at v name ≡ object_at w name)
  pub delete_ok :
      (n : ℕ) (name : String) (w : R)
      → IsUp n w
      → (v : R) × IsUp n v
        × ((client.delete bucket name w ≡ (ok tt, v))
            ⊎ (client.delete bucket name w ≡ (err (sentinel object_not_found), v)))
  pub put_ok :
      (n : ℕ) (name tag : String) (b : Bytes) (w : R)
      → IsUp n w
      → (v : R) × (client.put bucket name tag b w ≡ (ok tt, v))
        × IsUp n v
        × (object_at v name ≡ some b)
  pub get_some :
      (name : String) (b : Bytes) (w : R)
      → IsUp 0 w
      → object_at w name ≡ some b
      → client.get_file bucket name w ≡ (ok b, w)
  pub get_none :
      (name : String) (w : R)
      → IsUp 0 w
      → object_at w name ≡ none
      → client.get_file bucket name w ≡ (err (sentinel object_not_found), w)
  -- An answer is the one of a server that is up, or one refusal less is left.
  pub get_busy :
      (n : ℕ) (name : String) (w : R)
      → IsUp (suc n) w
      → IsUp n w
        ⊎ ((e : Error) × (v : R) × (client.get_file bucket name w ≡ (err e, v))
            × Unavailable client e
            × IsUp n v
            × ((other : String) → object_at v other ≡ object_at w other))
  pub up_suc : (n : ℕ) (w : R) → IsUp n w → IsUp (suc n) w

abbrev pub answer : Option Bytes → Result (Unit {0})
answer (some b) = ok tt
answer none = err (sentinel no_snapshot_found)

abbrev pub files_with : Option Bytes → String → Map String Bytes → Map String Bytes
files_with (some b) path files = insert path b files
files_with none path files = files

module _ {R : Type 0} (c : Configuration) (client : Client R)
    (object_at : R → String → Option Bytes) (IsUp : ℕ → R → Type 0)
    (laws : IsClient client (blob_bucket_name c) object_at IsUp) where
  get_blob_store-ok :
      (n : ℕ) (w : R)
      → IsUp n w
      → (v : R) × (get_blob_store c client w ≡ (ok tt, v))
        × IsUp n v
        × ((name : String) → object_at v name ≡ object_at w name)
  unfolding get_blob_store create_if_missing
  get_blob_store-ok n w up =
      let js = laws.jet_stream_ok n w up in
      elim (laws.object_store_ok n w up) [
        | inl found ↦ (w, ground (arith, js, found), up, λ name. refl)
        | inr absent ↦
            let (v, made, up', same) = laws.create_ok n c.snapshot.nats.replicas w up absent in
            (v, ground (arith, js, absent, made), up', same)
      ]

  delete_old-ok :
      (n : ℕ) (name : String) (w : R)
      → IsUp n w
      → (v : R) × (delete_old c client name w ≡ (ok tt, v)) × IsUp n v
  unfolding delete_old unless_missing
  delete_old-ok n name w up =
      let (v, up', deleted) = laws.delete_ok n name w up in
      elim deleted [
        | inl done ↦ (v, ground (arith, done), up')
        | inr absent ↦ (v, ground (arith, absent), up')
      ]

  abbrev pub view : ℕ → View R
  view n = record { stored = object_at; IsUp = IsUp n }

  file_hash-ok :
      (path : String) (b : Bytes) (d : Disk)
      → d.faults ≡ []
      → lookup path d.files ≡ some b
      → (hash : String) × (file_hash path d ≡ (ok hash, d))
  unfolding file_hash
  file_hash-ok path b d calm e = (hex (fnv64 b), ground (arith, calm, e))

  upload-stores :
      (n : ℕ) (name path : String) (b : Bytes) (h : Host R)
      → IsReady (view n) h
      → lookup path h.disk.files ≡ some b
      → (w : R) × (upload c client name path h ≡ (ok tt, record h { remote = w }))
        × IsUp n w
        × (object_at w name ≡ some b)
  unfolding upload
  upload-stores n name path b h ready e =
      let (w1, e1, up1, k1) = get_blob_store-ok n h.remote ready.up in
      let (w2, e2, up2) = delete_old-ok n name w1 up1 in
      let (hash, e3) = file_hash-ok path b h.disk ready.no_faults e in
      let (w4, e4, up4, f4) = laws.put_ok n name hash b w2 up2 in
      (w4, ground (arith, ready.no_faults, e, e1, e2, e3, e4), up4, f4)

  -- A refused round goes on to the next, and an answered one is the last.
  loop_waits :
      (r : ℕ) (path name : String) (e : Error) (v : R) (h : Host R)
      → client.get_file (blob_bucket_name c) name h.remote ≡ (err e, v)
      → Unavailable client e
      → download_loop c client (suc r) path name h
        ≡ download_loop c client r path name (record h { remote = v })
  unfolding download_loop get_file again
  loop_waits r path name e v h refused busy = ground (arith, refused, busy)

  loop_gets :
      (r : ℕ) (path name : String) (b : Bytes) (h : Host R)
      → h.disk.faults ≡ []
      → client.get_file (blob_bucket_name c) name h.remote ≡ (ok b, h.remote)
      → download_loop c client (suc r) path name h
        ≡ some (ok tt, record h { disk = record h.disk { files = insert path b h.disk.files } })
  unfolding download_loop get_file
  loop_gets r path name b h calm got = ground (arith, got, calm)

  loop_misses :
      (r : ℕ) (path name : String) (h : Host R)
      → client.get_file (blob_bucket_name c) name h.remote
        ≡ (err (sentinel object_not_found), h.remote)
      → download_loop c client (suc r) path name h ≡ some (err (sentinel no_snapshot_found), h)
  unfolding download_loop get_file again failed_with
  loop_misses r path name h absent = ground (arith, absent)

  -- What a download gives: the stored bytes in the file, or the error, and the same objects.
  abbrev pub outcome : Option Bytes → String → Host R → R → Result (Unit {0}) × Host R
  outcome o path h w = (
    answer o,
    record { disk = record h.disk { files = files_with o path h.disk.files }; remote = w },
  )

  loop_answers :
      (r : ℕ) (path name : String) (o : Option Bytes) (h : Host R)
      → h.disk.faults ≡ []
      → IsUp 0 h.remote
      → object_at h.remote name ≡ o
      → download_loop c client (suc r) path name h ≡ some (outcome o path h h.remote)
  loop_answers r path name (some b) h calm up e =
      loop_gets r path name b h calm (laws.get_some name b h.remote up e)
  loop_answers r path name none h calm up e =
      loop_misses r path name h (laws.get_none name h.remote up e)

  -- On a disk without faults, over a client that keeps its laws and refuses a file as unavailable
  -- at most n times: more than n rounds are enough for the loop of Download to end, with the stored
  -- bytes in the file, or with ErrNoSnapshotFound and the files as they were if there are none, and
  -- with the same objects stored.
  pub download_loop-ends :
      (n r : ℕ) (path name : String) (o : Option Bytes) (h : Host R)
      → n < r
      → h.disk.faults ≡ []
      → IsUp n h.remote
      → object_at h.remote name ≡ o
      → (w : R) × (download_loop c client r path name h ≡ some (outcome o path h w))
        × IsUp n w
        × ((other : String) → object_at w other ≡ object_at h.remote other)
  download_loop-ends n zero path name o h enough calm up e = absurd (omega arith)
  download_loop-ends zero (suc r) path name o h enough calm up e =
      (h.remote, loop_answers r path name o h calm up e, up, λ other. refl)
  download_loop-ends (suc n) (suc r) path name o h enough calm up e =
      elim (laws.get_busy n name h.remote up) [
        | inl up' ↦
            let (w, ends, up'', same) =
              download_loop-ends n (suc r) path name o h (omega arith) calm up' e in
            (w, ends, laws.up_suc n w up'', same)
        | inr (x, v, refused, busy, up', same) ↦
            let (w, ends, up'', same') =
              download_loop-ends n r path name o (record h { remote = v }) (omega arith) calm up'
                (same name ∙ e) in
            (
              w,
              loop_waits r path name x v h refused busy ∙ ends,
              laws.up_suc n w up'',
              λ other. same' other ∙ same other,
            )
      ]

  download-ends :
      (n r : ℕ) (path name : String) (o : Option Bytes) (h : Host R)
      → n < r
      → IsReady (view n) h
      → object_at h.remote name ≡ o
      → (w : R) × (download c client r path name h ≡ outcome o path h w)
        × IsUp n w
        × ((other : String) → object_at w other ≡ object_at h.remote other)
  unfolding download
  download-ends n r path name o h enough ready e =
      let (v, opened, up, same) = get_blob_store-ok n h.remote ready.up in
      let (w, ends, up', same') =
        download_loop-ends n r path name o (record h { remote = v }) enough ready.no_faults up
          (same name ∙ e) in
      (w, ground (arith, opened, ends), up', λ other. same' other ∙ same other)

  pub nats_storage-IsStorage : (n r : ℕ) → n < r → IsStorage (nats_storage c client r) (view n)
  nats_storage-IsStorage n r enough = record {
    upload_stores = upload-stores n;
    download_gets = λ path name b h ready e. download-ends n r path name (some b) h enough ready e;
    download_missing = λ path name h ready e. download-ends n r path name none h enough ready e;
  }

-- ===== src/Tests/Storage.antt =====
-- The storages and the snapshot at small inputs: an object store whose bucket is made on first use, and
-- that refuses two reads before it answers.
use marmot.Base.{
  Bool-cases, ℕ, zero, suc, ◌≤◌, String, ◌≡◌, refl, arith, Bool, true, false, ◌⊎◌, inl, inr, Option,
  none, some, [], ◌∷◌, ◌==◌, if◌then◌else◌, string_key,
}
use marmot.Base.Maps.{Map, lookup, insert, lookup-insert_self, lookup-insert_other}
use marmot.Base.Errors.{
  Error, Result, ok, err, sentinel, library, object_not_found, stream_not_found,
}
use marmot.Base.Act.{Act}
use marmot.Cfg.{Configuration, S3Configuration, default_config}
use marmot.Disk.{Disk, Bytes}
use marmot.Storage.{Host, IsStorage}
use marmot.Storage.Nats.{Client, blob_bucket_name, download_loop}
use marmot.Storage.Nats.Laws.{IsClient, download_loop-ends, outcome, Unavailable}
use marmot.Storage.S3.{Client as S3Client}
use marmot.Storage.S3.Laws.{IsClient as IsS3Client}
use marmot.Storage.Sftp.{SftpStorage, missing_text}
use marmot.Storage.Sftp.Laws.{IsClient as IsSftpClient}
use marmot.Storage.WebDav.{WebDavStorage}
use marmot.Storage.WebDav.Laws.{IsClient as IsWebDavClient}
use marmot.Storage.Refined.{
  Backend, nats, sftp, web_dav, s3, storage_of, view_of, storage_of-IsStorage,
}

pub record Server : Type 0 where
  pub busy : ℕ
  pub has_bucket : Bool
  pub objects : Map String Bytes

abbrev pub unavailable : Error
unavailable = library "503"

abbrev pub get : ℕ → String → Act Server Bytes
get zero name w = elim (lookup name w.objects) [
  | some b ↦ (ok b, w)
  | none ↦ (err (sentinel object_not_found), w)
]
get (suc n) name w = (err unavailable, record w { busy = n })

abbrev pub code_of : Error → Option ℕ
code_of (library m) = some 503
code_of _ = none

abbrev pub client : Client Server
client = record {
  jet_stream = λ w. (ok tt, w);
  object_store = λ bucket w. (if w.has_bucket then ok tt else err (sentinel stream_not_found), w);
  create_object_store = λ bucket replicas w. (ok tt, record w { has_bucket = true });
  delete = λ bucket name w. (err (sentinel object_not_found), w);
  put = λ bucket name tag b w. (ok tt, record w { objects = insert name b w.objects });
  get_file = λ bucket name w. get w.busy name w;
  api_code = code_of;
}

abbrev pub config : Configuration
config = default_config "/tmp"

abbrev pub object_at : Server → String → Option Bytes
object_at w name = lookup name w.objects

get-some :
    (k : ℕ) (name : String) (b : Bytes) (w : Server)
    → k ≤ 0
    → object_at w name ≡ some b
    → get k name w ≡ (ok b, w)
get-some zero name b w up e = ground (arith, e)
get-some (suc k) name b w up e = absurd (omega (arith, up))

get-none :
    (k : ℕ) (name : String) (w : Server)
    → k ≤ 0
    → object_at w name ≡ none
    → get k name w ≡ (err (sentinel object_not_found), w)
get-none zero name w up e = ground (arith, e)
get-none (suc k) name w up e = absurd (omega (arith, up))

get-busy :
    (k n : ℕ) (name : String) (w : Server)
    → k ≤ suc n
    → (k ≤ n)
      ⊎ ((e : Error) × (v : Server) × (get k name w ≡ (err e, v))
          × Unavailable client e
          × (v.busy ≤ n)
          × ((other : String) → object_at v other ≡ object_at w other))
get-busy zero n name w up = inl (omega arith)
get-busy (suc k) n name w up =
    inr (unavailable, record w { busy = k }, refl, (refl, refl), omega (arith, up), λ other. refl)

pub client-IsClient : IsClient client (blob_bucket_name config) object_at (λ n w. w.busy ≤ n)
client-IsClient = record {
  jet_stream_ok = λ n w up. refl;
  object_store_ok = λ n w up. elim (Bool-cases w.has_bucket) [
    | inl e ↦ inl (ground (arith, e))
    | inr e ↦ inr (ground (arith, e))
  ];
  create_ok = λ n replicas w up absent. (record w { has_bucket = true }, refl, up, λ name. refl);
  delete_ok = λ n name w up. (w, up, inr refl);
  put_ok = λ n name tag b w up. (
    record w { objects = insert name b w.objects },
    refl,
    up,
    lookup-insert_self name b w.objects,
  );
  get_some = λ name b w up e. get-some w.busy name b w up e;
  get_none = λ name w up e. get-none w.busy name w up e;
  get_busy = λ n name w up. get-busy w.busy n name w up;
  up_suc = λ n w up. omega (arith, up);
}

abbrev pub disk : Disk
disk = record { files = ("/tmp/a", 7 ∷ 8 ∷ []) ∷ []; dirs = []; next_temp = 0; faults = [] }

abbrev pub host : Host Server
host = record { disk = disk; remote = record { busy = 2; has_bucket = false; objects = [] } }

abbrev pub backend : Backend object_at
backend = nats config client (λ n w. w.busy ≤ n) 2 3 (omega arith) client-IsClient

-- A file server keeps the bytes of each path.
abbrev Files : Type 0
Files = Map String Bytes

abbrev Always : Files → Type 0
Always w = Unit

abbrev file_at : Files → String → Option Bytes
file_at w path = lookup path w

abbrev not_found : Error
not_found = library missing_text

abbrev text_of : Error → String
text_of (library m) = m
text_of _ = ""

abbrev status_of : Error → Option ℕ
status_of (library m) = if m == "409" then some 409 else some 404
status_of _ = none

abbrev read_file : String → Act Files Bytes
read_file path w = elim (lookup path w) [ some b ↦ (ok b, w) | none ↦ (err not_found, w) ]

abbrev open_if_there : String → Act Files (Unit {0})
open_if_there path w = elim (lookup path w) [ some b ↦ (ok tt, w) | none ↦ (err not_found, w) ]

abbrev sftp_server : SftpStorage Files
sftp_server = record {
  client = record {
    mkdir_all = λ dir w. (ok tt, w);
    open_truncated = λ path w. (ok tt, insert path [] w);
    read_from = λ path b w. (ok tt, insert path b w);
    open_remote = open_if_there;
    read_remote = read_file;
    error_text = text_of;
  };
  upload_path = "/backups";
}

sftp_server-IsClient : IsSftpClient sftp_server.client file_at Always
sftp_server-IsClient = record {
  mkdir_ok = λ dir w up. (w, refl, tt, λ p. refl);
  open_truncated_ok = λ path w up. (
    insert path [] w,
    refl,
    tt,
    lookup-insert_self path [] w,
    λ p other. lookup-insert_other path p [] w other,
  );
  read_from_ok = λ path b w up at. (
    insert path b w,
    refl,
    tt,
    lookup-insert_self path b w,
    λ p other. lookup-insert_other path p b w other,
  );
  open_ok = λ path b w up at. ground (arith, at);
  open_missing = λ path w up at. (not_found, ground (arith, at), refl);
  read_ok = λ path b w up at. ground (arith, at);
}

-- A server that keeps only the last file that was written, whatever its name.
abbrev one_file : Option Bytes → String → Option Bytes
one_file w path = w

abbrev read_one : Option Bytes → Result Bytes × Option Bytes
read_one (some b) = (ok b, some b)
read_one none = (err not_found, none)

abbrev web_dav_server : WebDavStorage (Option Bytes)
web_dav_server = record {
  client = record {
    mkdir_all = λ dir w. (err (library "409"), w);
    write_stream = λ path b w. (ok tt, some b);
    rename = λ path to overwrite w. (ok tt, w);
    read_stream = λ path w. read_one w;
    status = status_of;
  };
  path = "/";
}

web_dav_server-IsClient : IsWebDavClient web_dav_server.client "/" one_file (λ w. Unit)
web_dav_server-IsClient = record {
  mkdir_ok = λ w up. (w, tt, inr (library "409", refl, refl));
  write_ok = λ path b w up. (some b, refl, tt, refl);
  rename_ok = λ path to b w up at. (w, refl, tt, at);
  rooted = λ w name. refl;
  read_ok = λ path b w up at. rw at refl;
  read_missing = λ path w up at. (not_found, rw at refl, refl);
}

abbrev s3_config : S3Configuration
s3_config = config.snapshot.s3

abbrev s3_client : S3Client Files
s3_client = record {
  put_object = λ bucket path b w. (ok tt, insert path b w);
  get_object = λ bucket path. read_file path;
  bucket_exists = λ bucket w. (ok true, w);
  make_bucket = λ bucket w. (ok tt, w);
  status_code = status_of;
}

s3_client-IsClient : IsS3Client s3_client s3_config.bucket file_at Always
s3_client-IsClient = record {
  put_ok = λ path b w up. (insert path b w, refl, tt, lookup-insert_self path b w);
  get_ok = λ path b w up at. ground (arith, at);
  get_missing = λ path w up at. (not_found, ground (arith, at), refl);
}

abbrev over_sftp : Backend file_at
over_sftp = sftp sftp_server Always sftp_server-IsClient

abbrev over_web_dav : Backend one_file
over_web_dav = web_dav web_dav_server "node" 100 (λ w. Unit) web_dav_server-IsClient

abbrev over_s3 : Backend file_at
over_s3 = s3 s3_config s3_client Always s3_client-IsClient

storage_of-IsStorage_example :
    IsStorage (storage_of backend) (view_of backend)
    × IsStorage (storage_of over_sftp) (view_of over_sftp)
    × IsStorage (storage_of over_web_dav) (view_of over_web_dav)
    × IsStorage (storage_of over_s3) (view_of over_s3)
storage_of-IsStorage_example = (
  storage_of-IsStorage backend,
  storage_of-IsStorage over_sftp,
  storage_of-IsStorage over_web_dav,
  storage_of-IsStorage over_s3,
)

abbrev saved : Host Server
saved = record host {
  remote = record { busy = 2; has_bucket = true; objects = ("snapshot.db", 9 ∷ []) ∷ [] };
}

download_loop-ends_example :
    (w : Server) × (download_loop config client 3 "/tmp/b" "snapshot.db" saved
      ≡ some (
          outcome config client object_at
            (λ n w. w.busy ≤ n)
            client-IsClient
            (some (9 ∷ []))
            "/tmp/b"
            saved
            w))
    × (w.busy ≤ 2)
    × ((other : String) → object_at w other ≡ object_at saved.remote other)
unfolding lookup
download_loop-ends_example =
    download_loop-ends config client object_at (λ n w. w.busy ≤ n) client-IsClient 2 3 "/tmp/b"
      "snapshot.db" (some (9 ∷ [])) saved (omega arith) refl (omega arith) refl

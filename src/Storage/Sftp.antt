-- ===== src/Storage/Sftp.antt =====
-- snapshot/sftp_storage.go: a storage on an SFTP server. The client library is a parameter.
pub mod Laws
use text.Mathlib.Text.{◌==◌}
use marmot.Base.{String, Bool, true, ◌≡◌, Option, none, some, List, [], ◌∷◌, if◌then◌else◌}
use marmot.Base.Errors.{Error, Result, ok, err, panic, sentinel, no_snapshot_found}
use marmot.Base.Act.{Act, throw, catch, ◌>>=◌, ◌>>◌}
use marmot.Base.Paths.{join}
use marmot.Disk.{Bytes, open_file, read_all, create, write_all}
use marmot.Storage.{Host, Storage, on_disk, on_remote}

-- `sftp.Client` and the files that it opens; `error_text` is `Error()` of its errors.
pub record Client (R : Type 0) : Type 0 where
  pub mkdir_all : String → Act R (Unit {0})
  pub open_truncated : String → Act R (Unit {0})
  pub read_from : String → Bytes → Act R (Unit {0})
  pub open_remote : String → Act R (Unit {0})
  pub read_remote : String → Act R Bytes
  pub error_text : Error → String

pub record SftpStorage (R : Type 0) : Type 0 where
  pub client : Client R
  pub upload_path : String

abbrev pub missing_text : String
missing_text = "file does not exist"

module _ {R : Type 0} (s : SftpStorage R) where
  open s use {client, upload_path}

  unfoldable pub upload : String → String → Act (Host R) (Unit {0})
  upload name path =
      let remote_path = join (upload_path ∷ name ∷ []) in
      on_remote (client.mkdir_all upload_path)
      >> on_disk (open_file path)
      >> on_remote (client.open_truncated remote_path)
      >> (on_disk (read_all path) >>= λ b. on_remote (client.read_from remote_path b))

  missing : Error → Act (Host R) (Unit {0})
  missing e =
      if client.error_text e == missing_text then throw (sentinel no_snapshot_found) else throw e

  unfoldable pub download : String → String → Act (Host R) (Unit {0})
  unfolding missing
  download path name =
      let remote_path = join (upload_path ∷ name ∷ []) in
      catch (on_remote (client.open_remote remote_path)) missing
      >> on_disk (create path)
      >> (on_remote (client.read_remote remote_path) >>= λ b. on_disk (write_all path b))

  abbrev pub sftp_storage : Storage R
  sftp_storage = record { upload = upload; download = download }

-- What `url.Parse` tells of the configured address.
pub record ParsedUrl : Type 0 where
  pub user : String
  pub password : Option String
  pub host : String
  pub path : String

abbrev auth_methods : Option String → List String
auth_methods none = []
auth_methods (some password) = password ∷ []

-- `newSFTPStorage`; `dial` connects with a user and its passwords, and opens the client.
unfoldable pub new_sftp_storage :
    {R : Type 0}
    → Result ParsedUrl
    → (String → String → List String → Result (Client R))
    → Result (SftpStorage R)
new_sftp_storage (err e) dial = err e
new_sftp_storage (panic m) dial = panic m
new_sftp_storage (ok u) dial = elim (dial u.host u.user (auth_methods u.password)) [
  | ok client ↦ ok (record { client = client; upload_path = u.path })
  | err e ↦ err e
  | panic m ↦ panic m
]

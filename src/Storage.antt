-- ===== src/Storage.antt =====
-- snapshot/nats_snapshot.go: what a snapshot's storage is, on a host with a disk and a remote side, and
-- the contract that each storage keeps while its remote side answers.
pub mod Sftp
pub mod WebDav
pub mod S3
pub mod Nats
pub mod Select
pub mod Refined
use marmot.Base.{ℕ, Bool, false, nat_beq, String, ◌≡◌, Option, none, some, [], string_key}
use marmot.Base.Maps.{lookup, insert}
use marmot.Base.Errors.{Result, ok, err, panic, sentinel, no_snapshot_found}
use marmot.Base.Act.{Act}
use marmot.Disk.{Bytes, Disk}

pub record Host (R : Type 0) : Type 0 where
  pub disk : Disk
  pub remote : R

module _ {R A : Type 0} where
  abbrev put_disk : Host R → Result A × Disk → Result A × Host R
  put_disk h (r, d) = (r, record h { disk = d })

  abbrev pub on_disk : Act Disk A → Act (Host R) A
  on_disk m h = put_disk h (m h.disk)

  abbrev put_remote : Host R → Result A × R → Result A × Host R
  put_remote h (r, w) = (r, record h { remote = w })

  abbrev pub on_remote : Act R A → Act (Host R) A
  on_remote m h = put_remote h (m h.remote)

-- `snapshot.Storage`
pub record Storage (R : Type 0) : Type 0 where
  pub upload : String → String → Act (Host R) (Unit {0})
  pub download : String → String → Act (Host R) (Unit {0})

-- The file that the remote side has under a name, and whether its calls succeed.
pub record View (R : Type 0) : Type 1 where
  pub stored : R → String → Option Bytes
  pub IsUp : R → Type 0

-- A disk without faults, in front of a remote side that answers.
pub record IsReady {R : Type 0} (v : View R) (h : Host R) : Type 0 where
  pub no_faults : h.disk.faults ≡ []
  pub up : v.IsUp h.remote

-- While host and remote side are ready: an upload puts the file's bytes under the name;
-- a download writes the stored bytes to the file, or says that there is no snapshot, and changes no name.
pub record IsStorage {R : Type 0} (s : Storage R) (v : View R) : Type 0 where
  pub upload_stores :
      (name path : String) (b : Bytes) (h : Host R)
      → IsReady v h
      → lookup path h.disk.files ≡ some b
      → (w : R) × (s.upload name path h ≡ (ok tt, record h { remote = w }))
        × v.IsUp w
        × (v.stored w name ≡ some b)
  pub download_gets :
      (path name : String) (b : Bytes) (h : Host R)
      → IsReady v h
      → v.stored h.remote name ≡ some b
      → (w : R) × (s.download path name h ≡ (
        ok tt,
        record { disk = record h.disk { files = insert path b h.disk.files }; remote = w },
      ))
        × v.IsUp w
        × ((other : String) → v.stored w other ≡ v.stored h.remote other)
  pub download_missing :
      (path name : String) (h : Host R)
      → IsReady v h
      → v.stored h.remote name ≡ none
      → (w : R) × (s.download path name h
          ≡ (err (sentinel no_snapshot_found), record h { remote = w }))
        × v.IsUp w
        × ((other : String) → v.stored w other ≡ v.stored h.remote other)

-- An error with this status, `status` being that of an error of a client library.
abbrev pub is_status : ℕ → Option ℕ → Bool
is_status code none = false
is_status code (some c) = nat_beq c code

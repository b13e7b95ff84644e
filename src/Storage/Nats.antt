-- ===== src/Storage/Nats.antt =====
-- snapshot/nats_storage.go: a storage in an object store of JetStream. The client library is a
-- parameter; its errors may carry a status of the API.
pub mod Laws
use Prim.Native.String.{◌++◌}
use text.Mathlib.Text.{◌==◌}
use marmot.Base.{
  ℕ, zero, suc, String, Bool, true, false, Option, none, some, nat_beq, if◌then◌else◌,
}
use marmot.Base.Fnv.{fnv64}
use marmot.Base.Hex.{hex}
use marmot.Base.Int.{ℤ}
use marmot.Base.Errors.{
  Error, Result, ok, err, panic, sentinel, is_value, no_snapshot_found, object_not_found,
  stream_not_found,
}
use marmot.Base.Act.{Act, pure, throw, catch, ◌>>=◌, ◌>>◌}
use marmot.Cfg.{Configuration}
use marmot.Disk.{Disk, Bytes, open_file, read_all, write_all}
use marmot.Storage.{Host, Storage, on_disk, on_remote, is_status}

-- The connection, its JetStream context and object stores. `put` takes the name, the tag of the header
-- and the bytes; `GetFile` writes what `get_file` gets to a file.
pub record Client (R : Type 0) : Type 0 where
  pub jet_stream : Act R (Unit {0})
  pub object_store : String → Act R (Unit {0})
  pub create_object_store : String → ℤ → Act R (Unit {0})
  pub delete : String → String → Act R (Unit {0})
  pub put : String → String → String → Bytes → Act R (Unit {0})
  pub get_file : String → String → Act R Bytes
  pub api_code : Error → Option ℕ

unfoldable pub blob_bucket_name : Configuration → String
blob_bucket_name c =
    if c.snapshot.nats.bucket_name == ""
    then c.nats.stream_prefix ++ "-snapshot-store"
    else c.snapshot.nats.bucket_name

unfoldable pub file_hash : String → Act Disk String
file_hash path = open_file path >> (read_all path >>= λ b. pure (hex (fnv64 b)))

module _ {R : Type 0} (c : Configuration) (client : Client R) where
  create_if_missing : Error → Act R (Unit {0})
  create_if_missing e =
      if is_value e stream_not_found
      then client.create_object_store (blob_bucket_name c) c.snapshot.nats.replicas
      else throw e

  get_blob_store : Act R (Unit {0})
  unfolding create_if_missing
  get_blob_store =
      client.jet_stream >> catch (client.object_store (blob_bucket_name c)) create_if_missing

  unless_missing : Error → Act R (Unit {0})
  unless_missing e = if is_value e object_not_found then pure tt else throw e

  delete_old : String → Act R (Unit {0})
  unfolding unless_missing
  delete_old name = catch (client.delete (blob_bucket_name c) name) unless_missing

  unfoldable pub upload : String → String → Act (Host R) (Unit {0})
  unfolding get_blob_store delete_old file_hash
  upload name path =
      on_remote get_blob_store
      >> on_remote (delete_old name)
      >> (on_disk (file_hash path) >>= λ hash.
          on_disk (open_file path)
          >> (on_disk (read_all path) >>= λ b.
              on_remote (client.put (blob_bucket_name c) name hash b)))

  -- One round of the loop of `Download`.
  get_file : String → String → Act (Host R) (Unit {0})
  get_file path name =
      on_remote (client.get_file (blob_bucket_name c) name) >>= λ b. on_disk (write_all path b)

  again : Error → Bool
  again e = if is_value e object_not_found then false else is_status 503 (client.api_code e)

  failed_with : Error → Error
  failed_with e = if is_value e object_not_found then sentinel no_snapshot_found else e

  -- The loop of `Download`, on so many rounds; none when it would go on.
  unfoldable pub download_loop : ℕ → String → String → Host R → Option (Result (Unit {0}) × Host R)
  unfolding get_file again failed_with
  download_loop zero path name h = none
  download_loop (suc rounds) path name h =
      let (r, h') = get_file path name h in
      let rest = download_loop rounds path name h' in
      elim r [
        | ok _ ↦ some (ok tt, h')
        | panic m ↦ some (panic m, h')
        | err e ↦ elim (again e) [ true ↦ rest | false ↦ some (err (failed_with e), h') ]
      ]

  abbrev ended : Host R → Option (Result (Unit {0}) × Host R) → Result (Unit {0}) × Host R
  ended h none = (panic "the server is unavailable", h)
  ended h (some result) = result

  -- `Download`, which waits for so many rounds.
  unfoldable pub download : ℕ → String → String → Act (Host R) (Unit {0})
  unfolding get_blob_store
  download rounds path name =
      on_remote get_blob_store >> λ h. ended h (download_loop rounds path name h)

  abbrev pub nats_storage : ℕ → Storage R
  nats_storage rounds = record { upload = upload; download = download rounds }

-- `newNatsStorage`, with the result of `stream.Connect`.
abbrev pub new_nats_storage : {R : Type 0} → Result (Client R) → Result (Client R)
new_nats_storage r = r

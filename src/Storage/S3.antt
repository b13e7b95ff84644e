-- ===== src/Storage/S3.antt =====
-- snapshot/s3_storage.go: a storage in a bucket of S3. The client library is a parameter; its errors may
-- carry a status of HTTP.
pub mod Laws
use Prim.Native.String.{◌++◌}
use text.Mathlib.Text.{◌==◌}
use marmot.Base.{
  ℕ, String, Bool, true, false, ◌&&◌, not, Option, none, some, nat_beq, if◌then◌else◌,
}
use marmot.Base.Errors.{Error, Result, ok, err, panic, sentinel, no_snapshot_found}
use marmot.Base.Act.{Act, pure, throw, catch, ◌>>=◌, ◌>>◌}
use marmot.Cfg.{S3Configuration}
use marmot.Disk.{Bytes, read_all, write_all}
use marmot.Storage.{Host, Storage, on_disk, on_remote, is_status}

-- `minio.Client`: `FPutObject` reads the file that it sends, `FGetObject` writes the one that it gets.
pub record Client (R : Type 0) : Type 0 where
  pub put_object : String → String → Bytes → Act R (Unit {0})
  pub get_object : String → String → Act R Bytes
  pub bucket_exists : String → Act R Bool
  pub make_bucket : String → Act R (Unit {0})
  pub status_code : Error → Option ℕ

module _ {R : Type 0} (c : S3Configuration) (client : Client R) where
  abbrev pub bucket_path : String → String
  bucket_path name = c.dir_path ++ ("/" ++ name)

  unfoldable pub upload : String → String → Act (Host R) (Unit {0})
  upload name path =
      on_disk (read_all path) >>= λ b. on_remote (client.put_object c.bucket (bucket_path name) b)

  missing : Error → Act (Host R) (Unit {0})
  missing e =
      if is_status 404 (client.status_code e) then throw (sentinel no_snapshot_found) else throw e

  unfoldable pub download : String → String → Act (Host R) (Unit {0})
  unfolding missing
  download path name =
      catch
        (on_remote (client.get_object c.bucket (bucket_path name)) >>= λ b.
          on_disk (write_all path b))
        missing

  abbrev pub s3_storage : Storage R
  s3_storage = record { upload = upload; download = download }

pub record Credentials : Type 0 where
  pub access_key_id : String
  pub secret_access_key : String
  pub session_token : String
  pub is_anonymous : Bool

abbrev pub credentials : S3Configuration → Credentials
credentials c = record {
  access_key_id = c.access_key;
  secret_access_key = c.secret_key;
  session_token = c.session_token;
  is_anonymous = c.access_key == "" && c.secret_key == "";
}

make_if_missing : {R : Type 0} → S3Configuration → Client R → Bool → Act R (Unit {0})
make_if_missing c client exists = if exists then pure tt else client.make_bucket c.bucket

-- `newS3Storage` after `minio.New`, with the client that it gave.
unfoldable pub new_s3_storage :
    {R : Type 0} → S3Configuration → Result (Client R) → Act R (Client R)
unfolding make_if_missing
new_s3_storage c (err e) w = (err e, w)
new_s3_storage c (panic m) w = (panic m, w)
new_s3_storage c (ok client) w =
    (client.bucket_exists c.bucket >>= make_if_missing c client >> pure client) w

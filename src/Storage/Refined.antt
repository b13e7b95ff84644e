-- ===== src/Storage/Refined.antt =====
-- The four storages of snapshot/ under one contract.
use marmot.Base.{ℕ, ◌<◌, String, Option}
use marmot.Cfg.{Configuration, S3Configuration}
use marmot.Disk.{Bytes}
use marmot.Storage.{Storage, View, IsStorage}
use marmot.Storage.Nats.{Client as NatsClient, nats_storage, blob_bucket_name}
use marmot.Storage.Nats.Laws.{IsClient as IsNatsClient, view as nats_view, nats_storage-IsStorage}
use marmot.Storage.S3.{Client as S3Client, s3_storage}
use marmot.Storage.S3.Laws.{IsClient as IsS3Client, view as s3_view, s3_storage-IsStorage}
use marmot.Storage.Sftp.{SftpStorage, sftp_storage}
use marmot.Storage.Sftp.Laws.{IsClient as IsSftpClient, view as sftp_view, sftp_storage-IsStorage}
use marmot.Storage.WebDav.{WebDavStorage, web_dav_storage}
use marmot.Storage.WebDav.Laws.{
  IsClient as IsWebDavClient, view as web_dav_view, web_dav_storage-IsStorage,
}

-- A storage of the program, over a client that keeps its laws, with the client's files.
pub data Backend {R : Type 0} (file_at : R → String → Option Bytes) : Type 1 where
  sftp :
      (s : SftpStorage R) (IsUp : R → Type 0) → IsSftpClient s.client file_at IsUp → Backend file_at
  web_dav :
      (s : WebDavStorage R) (node_name : String) (now : ℕ) (IsUp : R → Type 0)
      → IsWebDavClient s.client s.path file_at IsUp
      → Backend file_at
  s3 :
      (c : S3Configuration) (client : S3Client R) (IsUp : R → Type 0)
      → IsS3Client client c.bucket file_at IsUp
      → Backend file_at
  nats :
      (c : Configuration) (client : NatsClient R) (IsUp : ℕ → R → Type 0) (n rounds : ℕ)
      → n < rounds
      → IsNatsClient client (blob_bucket_name c) file_at IsUp
      → Backend file_at

module _ {R : Type 0} {file_at : R → String → Option Bytes} where
  unfoldable pub storage_of : Backend file_at → Storage R
  storage_of (sftp s IsUp laws) = sftp_storage s
  storage_of (web_dav s node_name now IsUp laws) = web_dav_storage s node_name now
  storage_of (s3 c client IsUp laws) = s3_storage c client
  storage_of (nats c client IsUp n rounds enough laws) = nats_storage c client rounds

  unfoldable pub view_of : Backend file_at → View R
  view_of (sftp s IsUp laws) = sftp_view s file_at IsUp laws
  view_of (web_dav s node_name now IsUp laws) = web_dav_view s node_name now file_at IsUp laws
  view_of (s3 c client IsUp laws) = s3_view c client file_at IsUp laws
  view_of (nats c client IsUp n rounds enough laws) = nats_view c client file_at IsUp laws n

  -- Each of the four storages, over a client that keeps the laws of its documentation, keeps the
  -- storage's contract while the host and the remote side are ready: an upload stores the file's
  -- bytes under the name, a download writes the stored bytes to the file, or returns
  -- ErrNoSnapshotFound where there are none, and a download changes no name.
  pub storage_of-IsStorage : (b : Backend file_at) → IsStorage (storage_of b) (view_of b)
  unfolding storage_of view_of
  storage_of-IsStorage (sftp s IsUp laws) = sftp_storage-IsStorage s file_at IsUp laws
  storage_of-IsStorage (web_dav s node_name now IsUp laws) =
      web_dav_storage-IsStorage s node_name now file_at IsUp laws
  storage_of-IsStorage (s3 c client IsUp laws) = s3_storage-IsStorage c client file_at IsUp laws
  storage_of-IsStorage (nats c client IsUp n rounds enough laws) =
      nats_storage-IsStorage c client file_at IsUp laws n rounds enough

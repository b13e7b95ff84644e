-- ===== src/Storage/Select.antt =====
-- `NewSnapshotStorage` of snapshot/nats_snapshot.go, over the makers of the four storages.
use text.Mathlib.Text.{◌==◌}
use marmot.Base.{if◌then◌else◌}
use marmot.Base.Errors.{sentinel, invalid_storage_type}
use marmot.Base.Act.{Act, throw}
use marmot.Cfg.{
  Configuration, snapshot_storage_type, sftp_store, web_dav_store, nats_store, s3_store,
}
use marmot.Storage.{Storage}

-- What makes each storage; making one may connect.
pub record Makers (W R : Type 0) : Type 0 where
  pub sftp : Act W (Storage R)
  pub web_dav : Act W (Storage R)
  pub nats : Act W (Storage R)
  pub s3 : Act W (Storage R)

unfoldable pub new_snapshot_storage :
    {W R : Type 0} → Configuration → Makers W R → Act W (Storage R)
new_snapshot_storage c makers =
    let t = snapshot_storage_type c in
    if t == sftp_store
    then makers.sftp
    else if t == web_dav_store
    then makers.web_dav
    else if t == nats_store
    then makers.nats
    else if t == s3_store
    then makers.s3
    else throw (sentinel invalid_storage_type)

-- ===== src/LogStream/Setup.antt =====
-- logstream/replicator_meta_store.go: the bucket of the lease, found or made. logstream/replicator.go:
-- `ReloadCertificates`. The client is a parameter, on a state `S` behind it.
use text.Mathlib.Text.{◌==◌ as str_eq}
use marmot.Base.{String, Bool, ◌&&◌, not, if◌then◌else◌}
use marmot.Base.Int.{ℤ}
use marmot.Base.Errors.{Error, is_value, bucket_not_found}
use marmot.Base.Act.{Act, pure, throw, catch, ◌>>◌}
use marmot.Cfg.{Configuration}

-- `JetStream`, `KeyValue` and `CreateKeyValue` with the replicas; `RootCAs` and `ClientCert` on the options
-- of the connection.
pub record Client (S : Type 0) : Type 0 where
  pub jet_stream : Act S (Unit {0})
  pub key_value : String → Act S (Unit {0})
  pub create_key_value : String → ℤ → Act S (Unit {0})
  pub root_cas : String → Act S (Unit {0})
  pub client_cert : String → String → Act S (Unit {0})

module _ {S : Type 0} (client : Client S) (config : Configuration) where
  create_if_missing : String → Error → Act S (Unit {0})
  create_if_missing name e =
      if is_value e bucket_not_found
      then client.create_key_value name config.replication_log.replicas
      else throw e

  unfoldable pub new_replicator_meta_store : String → Act S (Unit {0})
  unfolding create_if_missing
  new_replicator_meta_store name =
      client.jet_stream >> catch (client.key_value name) (create_if_missing name)

  is_set : String → Bool
  is_set s = not (str_eq s "")

  unfoldable pub reload_certificates : Act S (Unit {0})
  unfolding is_set
  reload_certificates =
      (if is_set config.nats.ca_file then client.root_cas config.nats.ca_file else pure tt)
      >> (if is_set config.nats.cert_file && is_set config.nats.key_file
          then client.client_cert config.nats.cert_file config.nats.key_file
          else pure tt)

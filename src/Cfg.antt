-- ===== src/Cfg.antt =====
-- cfg/config.go: the configuration, its defaults, and `Load`. Paths are texts; the TOML decoder and
-- the absolute path of a directory are what the caller of `load` gives.
use Prim.Native.String.{◌++◌}
use text.Mathlib.Text.{◌==◌ as str_eq}
use marmot.Base.{ℕ, String, Bool, true, false, List, [], Option, none, some, if◌then◌else◌}
use marmot.Base.Errors.{Error, Result, ok, err, ◌>>=◌}
use marmot.Base.Int.{ℤ, pos}
use marmot.Base.Decimal.{decimal}
use marmot.Base.Fnv.{fnv64}

-- The source's string type: a configuration file may hold any text here.
abbrev pub SnapshotStoreType : Type 0
SnapshotStoreType = String

abbrev pub node_name_prefix : String
node_name_prefix = "marmot-node"

abbrev pub embedded_cluster_name : String
embedded_cluster_name = "e-marmot"

abbrev pub nats_store : SnapshotStoreType
nats_store = "nats"

abbrev pub s3_store : SnapshotStoreType
s3_store = "s3"

abbrev pub web_dav_store : SnapshotStoreType
web_dav_store = "webdav"

abbrev pub sftp_store : SnapshotStoreType
sftp_store = "sftp"

pub record ReplicationLogConfiguration : Type 0 where
  pub shards : ℕ
  pub max_entries : ℤ
  pub replicas : ℤ
  pub compress : Bool
  pub update_existing : Bool

pub record WebDavConfiguration : Type 0 where
  pub url : String

pub record SftpConfiguration : Type 0 where
  pub url : String

pub record S3Configuration : Type 0 where
  pub dir_path : String
  pub endpoint : String
  pub access_key : String
  pub secret_key : String
  pub session_token : String
  pub bucket : String
  pub use_ssl : Bool

pub record ObjectStoreConfiguration : Type 0 where
  pub replicas : ℤ
  pub bucket_name : String

pub record SnapshotConfiguration : Type 0 where
  pub enable : Bool
  pub interval : ℕ
  pub store_type : SnapshotStoreType
  pub nats : ObjectStoreConfiguration
  pub s3 : S3Configuration
  pub web_dav : WebDavConfiguration
  pub sftp : SftpConfiguration

pub record NatsConfiguration : Type 0 where
  pub urls : List String
  pub subject_prefix : String
  pub stream_prefix : String
  pub server_config_file : String
  pub seed_file : String
  pub creds_user : String
  pub creds_password : String
  pub ca_file : String
  pub cert_file : String
  pub key_file : String
  pub bind_address : String
  pub connect_retries : ℤ
  pub reconnect_wait_seconds : ℤ

pub record LoggingConfiguration : Type 0 where
  pub verbose : Bool
  pub format : String

pub record PrometheusConfiguration : Type 0 where
  pub bind : String
  pub enable : Bool
  pub namespace : String
  pub subsystem : String

pub record Configuration : Type 0 where
  pub seq_map_path : String
  pub db_path : String
  pub node_id : ℕ
  pub publish : Bool
  pub replicate : Bool
  pub scan_max_changes : ℕ
  pub cleanup_interval : ℕ
  pub sleep_timeout : ℕ
  pub polling_interval : ℕ
  pub snapshot : SnapshotConfiguration
  pub replication_log : ReplicationLogConfiguration
  pub nats : NatsConfiguration
  pub logging : LoggingConfiguration
  pub prometheus : PrometheusConfiguration

-- `path.Join` of a clean directory and a file name.
abbrev pub join_path : String → String → String
join_path dir name = dir ++ "/" ++ name

abbrev default_snapshot : SnapshotConfiguration
default_snapshot = record {
  enable = true;
  interval = 0;
  store_type = nats_store;
  nats = record { replicas = pos 1; bucket_name = "" };
  s3 = record {
    dir_path = "";
    endpoint = "";
    access_key = "";
    secret_key = "";
    session_token = "";
    bucket = "";
    use_ssl = false;
  };
  web_dav = record { url = "" };
  sftp = record { url = "" };
}

abbrev default_nats : NatsConfiguration
default_nats = record {
  urls = [];
  subject_prefix = "marmot-change-log";
  stream_prefix = "marmot-changes";
  server_config_file = "";
  seed_file = "";
  creds_user = "";
  creds_password = "";
  ca_file = "";
  cert_file = "";
  key_file = "";
  bind_address = ":-1";
  connect_retries = pos 5;
  reconnect_wait_seconds = pos 2;
}

-- `Config` before `init`, in the temporary directory `data_root_dir`.
abbrev pub default_config : String → Configuration
default_config data_root_dir = record {
  seq_map_path = join_path data_root_dir "seq-map.cbor";
  db_path = join_path data_root_dir "marmot.db";
  node_id = 0;
  publish = true;
  replicate = true;
  scan_max_changes = 512;
  cleanup_interval = 5000;
  sleep_timeout = 0;
  polling_interval = 0;
  snapshot = default_snapshot;
  replication_log = record {
    shards = 1;
    max_entries = pos 1024;
    replicas = pos 1;
    compress = true;
    update_existing = false;
  };
  nats = default_nats;
  logging = record { verbose = false; format = "console" };
  prometheus = record { bind = ":3010"; enable = false; namespace = "marmot"; subsystem = "" };
}

-- `init`: the node's id is a hash of the machine's, or of a random text where that cannot be read.
pub init : Option (List ℕ) → List ℕ → Configuration → Configuration
init (some id) random config = record config { node_id = fnv64 id }
init none random config = record config { node_id = fnv64 random }

-- What `toml.DecodeFile` did: the configuration that it left, and its error with `os.IsNotExist` of it.
pub record Decoded : Type 0 where
  pub config : Configuration
  pub error : Option Error
  pub not_exist : Bool

-- `Load`, which also sets the directory of the data.
pub load : Decoded → (String → Result String) → String → Result (Configuration × String)
load d abs_dir data_root_dir = if d.not_exist then ok (d.config, data_root_dir) else elim d.error [
  | some e ↦ err e
  | none ↦ do
    root ← abs_dir d.config.db_path
    if str_eq d.config.seq_map_path ""
        then ok (record d.config { seq_map_path = join_path root "seq-map.cbor" }, root)
        else ok (d.config, root)
]

abbrev pub snapshot_storage_type : Configuration → SnapshotStoreType
snapshot_storage_type c = c.snapshot.store_type

abbrev pub node_name : Configuration → String
node_name c = node_name_prefix ++ "-" ++ decimal c.node_id

-- ===== src/Tests/Streams.antt =====
-- The listed results on the streams of logstream/, with a client that has no stream at first.
use marmot.Base.{ℕ, ◌≡◌, ◌↔◌, suc, refl, arith, true, false, [], ◌∷◌, nat_key}
use marmot.Base.Maps.{insert}
use marmot.Base.Int.{pos, ltz}
use marmot.Base.Errors.{ok, err, sentinel, stream_not_found}
use marmot.Cfg.{Configuration, default_config}
use marmot.LogStream.Replicator.{Replicator}
use marmot.LogStream.Publish.Shard.{IsSharded}
use marmot.LogStream.Streams.{
  StreamConfig, StreamClient, make_shard_stream_config, eq_shard_stream_config, stream_map_of,
}
use marmot.LogStream.Streams.Config.{replicas_bounds, eq_shard_stream_config_iff}
use marmot.LogStream.Streams.Ready.{stream_map_of-IsSharded}

abbrev seven_replicas : Configuration
seven_replicas = record (default_config "/tmp") {
  replication_log = record (default_config "/tmp").replication_log { replicas = pos 7; shards = 2 };
}

replicas_bounds_example :
    let replicas = (make_shard_stream_config seven_replicas 1 2 true).replicas in
    (ltz replicas (pos 1) ≡ false)
    × (ltz (pos 5) replicas ≡ false)
    × (ltz (pos 7) (pos 1) ≡ false → ltz (pos 5) (pos 7) ≡ false → replicas ≡ pos 7)
replicas_bounds_example = replicas_bounds seven_replicas 1 2 true (omega arith)

abbrev of_shard_2 : StreamConfig
of_shard_2 = make_shard_stream_config seven_replicas 2 2 true

eq_shard_stream_config_iff_example :
    (eq_shard_stream_config of_shard_2 (make_shard_stream_config seven_replicas 1 2 true) ≡ true)
    ↔ (of_shard_2 ≡ make_shard_stream_config seven_replicas 1 2 true)
eq_shard_stream_config_iff_example = eq_shard_stream_config_iff of_shard_2 seven_replicas 1 2 true

-- The world counts the streams that were added.
abbrev client : StreamClient ℕ ℕ
client = record {
  jet_stream = λ w. ok w;
  stream_info = λ js name w. err (sentinel stream_not_found);
  add_stream = λ js c w. (ok c, suc w);
  update_stream = λ js c w. (ok c, w);
}

abbrev made : Replicator ℕ
made = record {
  config = seven_replicas;
  shards = 2;
  compression_enabled = true;
  stream_map = (1, 0) ∷ (2, 1) ∷ [];
}

stream_map_of-IsSharded_example : IsSharded made
unfolding stream_map_of insert
stream_map_of-IsSharded_example =
    stream_map_of-IsSharded client seven_replicas 0 2 ((1, 0) ∷ (2, 1) ∷ []) (omega arith) refl

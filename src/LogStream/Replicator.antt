-- ===== src/LogStream/Replicator.antt =====
-- The `Replicator` of logstream/replicator.go: what its methods read and change, with the stream
-- client, the compressor and the clock as parameters.
use marmot.Base.{ℕ, String, Bool, List}
use marmot.Base.Maps.{Map}
use marmot.Base.Errors.{Result}
use marmot.Cfg.{Configuration}
use marmot.LogStream.State.{ReplicationState}

abbrev pub Bytes : Type 0
Bytes = List ℕ

-- The fields that `NewReplicator` sets once. `J` is the type of a stream context of the client.
pub record Replicator (J : Type 0) : Type 0 where
  pub config : Configuration
  pub shards : ℕ
  pub compression_enabled : Bool
  pub stream_map : Map ℕ J

-- zstd, as `payloadCompress` and `payloadDecompress` call it.
pub record Compressor : Type 0 where
  pub compress : Bytes → Result Bytes
  pub decompress : Bytes → Result Bytes

pub record Ack : Type 0 where
  pub stream : String
  pub sequence : ℕ

-- What a running replicator changes: the sequence map, the snapshots that `Publish` has started, and
-- the world behind the client, `W`.
pub record Running (W : Type 0) : Type 0 where
  pub rep_state : ReplicationState
  pub snapshots_started : ℕ
  pub world : W

-- ===== src/Handlers.antt =====
-- The handlers of marmot.go: `onTableChanged`, which publishes a local change, and `onChangeEvent`, which
-- applies a change of the streams.
pub mod Delivery
pub mod Pipeline
use marmot.Base.{ℕ, ◌+◌, String, Bool, Option, if◌then◌else◌}
use marmot.Base.Errors.{Result, ok, err, panic, sentinel, canceled}
use marmot.Base.Codec.{Codec}
use marmot.Cfg.{Configuration}
use marmot.LogStream.State.{SeqMap, SaveFaults}
use marmot.LogStream.Replicator.{Replicator, Compressor, Ack, Running, Bytes}
use marmot.LogStream.Publish.{publish}
use marmot.Db.Event.{ChangeLogEvent, PkCache, Encoder, hash}
use marmot.Db.Store.{SqliteStreamDb}
use marmot.Db.Replicate.{Engine, TxFaults, replicate}
use marmot.Wire.{ReplicationEvent, TaggedCbor, change_log_event, marshal, unmarshal}

-- What the handlers of a node change: the pulses on the event bus, the cache of key columns, the running
-- replicator, and the tables `D`. The state context is canceled or not.
pub record Node (W D : Type 0) : Type 0 where
  pub canceled : Bool
  pub pulses : ℕ
  pub pk_cache : PkCache
  pub running : Running W
  pub tables : D

abbrev pulse : {W D : Type 0} → Node W D → Node W D
pulse n = record n { pulses = n.pulses + 1 }

module _ {W D : Type 0} (config : Configuration) (cbor : TaggedCbor ChangeLogEvent) where
  module _ {J : Type 0} (codec : Codec SeqMap) (zstd : Compressor)
      (js_publish : J → String → Bytes → W → Result Ack × W) (r : Replicator J) (enc : Encoder)
      (node_id : ℕ) (disk : Running W → SaveFaults) where
    publish_hashed : Bytes → Result ℕ × PkCache → Node W D → Result (Unit {0}) × Node W D
    publish_hashed bytes (ok h, cache) n =
        let (result, running) =
          publish codec zstd js_publish r h bytes (disk n.running) n.running in
        (result, record n { pk_cache = cache; running = running })
    publish_hashed bytes (err e, cache) n = (err e, record n { pk_cache = cache })
    publish_hashed bytes (panic m, cache) n = (panic m, record n { pk_cache = cache })

    publish_marshaled : ChangeLogEvent → Result Bytes → Node W D → Result (Unit {0}) × Node W D
    unfolding publish_hashed
    publish_marshaled event (ok bytes) n = publish_hashed bytes (hash enc n.pk_cache event) n
    publish_marshaled event (err e) n = (err e, n)
    publish_marshaled event (panic m) n = (panic m, n)

    unfoldable pub on_table_changed : ChangeLogEvent → Node W D → Result (Unit {0}) × Node W D
    unfolding publish_marshaled
    on_table_changed event n =
        let n' = pulse n in
        let sent =
          publish_marshaled event
            (marshal cbor (record { from_node_id = node_id; payload = event })) n' in
        if n.canceled
        then (err (sentinel canceled), n')
        else if config.publish
        then sent
        else (ok tt, n')

  module _ (conn : SqliteStreamDb W) (engine : Engine D) (faults : TxFaults) where
    replicate_received :
        Result (Unit {0}) × ReplicationEvent ChangeLogEvent
        → Node W D
        → Result (Unit {0}) × Node W D
    replicate_received (err e, ev) n = (err e, n)
    replicate_received (panic m, ev) n = (panic m, n)
    replicate_received (ok _, ev) n =
        let (result, tables) = replicate conn engine faults ev.payload n.tables in
        (result, record n { tables = tables })

    -- `start` is the new event that `Unmarshal` fills.
    unfoldable pub on_change_event :
        ReplicationEvent ChangeLogEvent → Bytes → Node W D → Result (Unit {0}) × Node W D
    unfolding replicate_received
    on_change_event start bytes n =
        let n' = pulse n in
        let received = replicate_received (unmarshal cbor start bytes) n' in
        if n.canceled
        then (err (sentinel canceled), n')
        else if config.replicate
        then received
        else (ok tt, n')

-- ===== src/LogStream/Publish.antt =====
-- `Publish` of logstream/replicator.go: the shard of a hash, and the snapshot that a publish starts.
pub mod Shard
pub mod Sends
use marmot.Base.{
  ℕ, zero, suc, ◌+◌, ◌/◌, ◌%◌, String, Bool, ◌&&◌, not, none, some, nat_beq, if◌then◌else◌, nat_key,
}
use marmot.Base.Maps.{lookup}
use marmot.Base.Int.{to_u64}
use marmot.Base.Errors.{Result, ok, err, panic}
use marmot.Base.Codec.{Codec}
use marmot.Cfg.{Configuration}
use marmot.LogStream.State.{SeqMap, SaveFaults, save}
use marmot.LogStream.Names.{subject_name}
use marmot.LogStream.Replicator.{Replicator, Compressor, Ack, Running, Bytes}

abbrev pub snapshot_shard_id : ℕ
snapshot_shard_id = 1

-- `(hash % r.shards) + 1`; no shards is a division by zero.
unfoldable pub shard_id : ℕ → ℕ → Result ℕ
shard_id hash zero = panic "integer divide by zero"
shard_id hash (suc n) = ok (hash % suc n + 1)

-- Whether a publish under `seq` starts a snapshot. A replicator has shards where this is asked.
unfoldable pub starts_snapshot : Configuration → ℕ → ℕ → ℕ → Bool
starts_snapshot config shards shard seq =
    let snapshot_entries = to_u64 config.replication_log.max_entries / shards in
    not (nat_beq snapshot_entries 0)
    && nat_beq (seq % snapshot_entries) 0
    && nat_beq shard snapshot_shard_id

module _ {J W : Type 0} (codec : Codec SeqMap) (zstd : Compressor)
    (js_publish : J → String → Bytes → W → Result Ack × W) (r : Replicator J) where
  -- The payload as it is sent.
  unfoldable pub encoded : Bytes → Result Bytes
  encoded payload = if r.compression_enabled then zstd.compress payload else ok payload

  -- The end of `Publish`, once the stream has acknowledged.
  unfoldable pub record_ack : ℕ → Ack → SaveFaults → Running W → Result (Unit {0}) × Running W
  record_ack shard ack faults st =
      if r.config.snapshot.enable
      then (let (saved, rep_state) = save codec st.rep_state ack.stream ack.sequence faults in
          let st' : Running W = record st { rep_state = rep_state } in
          elim saved [
            | ok seq ↦ (
              ok tt,
              if starts_snapshot r.config r.shards shard seq
                  then record st' { snapshots_started = st.snapshots_started + 1 }
                  else st',
            )
            | err e ↦ (err e, st')
            | panic m ↦ (panic m, st')
          ])
      else (ok tt, st)

  pub send : ℕ → J → Bytes → SaveFaults → Running W → Result (Unit {0}) × Running W
  unfolding record_ack
  send shard js payload faults st = elim (encoded payload) [
    | err e ↦ (err e, st)
    | panic m ↦ (panic m, st)
    | ok bytes ↦
        let (sent, world) = js_publish js (subject_name r.config shard) bytes st.world in
        let st' : Running W = record st { world = world } in
        elim sent [
          | err e ↦ (err e, st')
          | panic m ↦ (panic m, st')
          | ok ack ↦ record_ack shard ack faults st'
        ]
  ]

  unfoldable pub publish : ℕ → Bytes → SaveFaults → Running W → Result (Unit {0}) × Running W
  unfolding send
  publish hash payload faults st = elim (shard_id hash r.shards) [
    | err e ↦ (err e, st)
    | panic m ↦ (panic m, st)
    | ok shard ↦ elim (lookup shard r.stream_map) [
      | none ↦ (panic "Invalid shard", st)
      | some js ↦ send shard js payload faults st
    ]
  ]

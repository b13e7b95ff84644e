-- ===== src/LogStream/Publish/Shard.antt =====
-- What `Publish` of logstream/replicator.go does with a hash.
use marmot.Base.{
  ℕ, zero, suc, refl, ◌+◌, ◌%◌, ◌≤◌, ◌<◌, String, ◌≡◌, ◌≢◌, ◌&&◌, if◌then◌else◌, inl, inr, arith,
  Option-cases, none, some, nat_key,
}
use Prim.Native.Nat.{max}
use marmot.Base.Maps.{lookup}
use marmot.Base.Errors.{Result, ok, Result-cases, panic}
use marmot.Base.Codec.{Codec}
use marmot.LogStream.State.{SeqMap, SaveFaults, save, get}
use marmot.LogStream.State.Get.{get-save_ok, save-ne-panic}
use marmot.LogStream.Names.{subject_name}
use marmot.LogStream.Replicator.{Replicator, Compressor, Ack, Running, Bytes}
use marmot.LogStream.Publish.{starts_snapshot, shard_id, encoded, record_ack, send, publish}

-- The replicator has a stream for each of its shards, 1 up to `shards`, as `NewReplicator` leaves it.
pub record IsSharded {J : Type 0} (r : Replicator J) : Type 0 where
  pub some_shard : 0 < r.shards
  pub stream_of : (shard : ℕ) → 0 < shard → shard ≤ r.shards → lookup shard r.stream_map ≢ none

shard_id_lem : (hash shards : ℕ) → 0 < shards → shard_id hash shards ≡ ok (hash % shards + 1)
unfolding shard_id
shard_id_lem hash zero h = absurd (omega arith)
shard_id_lem hash (suc n) h = refl

module _ {J W : Type 0} (codec : Codec SeqMap) (zstd : Compressor)
    (js_publish : J → String → Bytes → W → Result Ack × W) (r : Replicator J) where
  -- What a publish of `payload` under `hash` that goes well does: the message is in the stream of shard
  -- `hash % shards + 1`, and with snapshots enabled its number is saved, and starts a snapshot if due.
  pub record Published (hash : ℕ) (payload : Bytes) (st st' : Running W) : Type 0 where
    pub js : J
    pub bytes : Bytes
    pub ack : Ack
    pub stream : lookup (hash % r.shards + 1) r.stream_map ≡ some js
    pub encodes : encoded codec zstd js_publish r payload ≡ ok bytes
    pub sent :
        js_publish js (subject_name r.config (hash % r.shards + 1)) bytes st.world
        ≡ (ok ack, st'.world)
    pub saved : get st'.rep_state ack.stream ≡ (
        if r.config.snapshot.enable
        then max ack.sequence (get st.rep_state ack.stream)
        else get st.rep_state ack.stream)
    pub started : st'.snapshots_started ≡ (
        if r.config.snapshot.enable
          && starts_snapshot r.config r.shards (hash % r.shards + 1) (get st'.rep_state ack.stream)
        then st.snapshots_started + 1
        else st.snapshots_started)

  record_ack-ok :
      (shard : ℕ) (ack : Ack) (faults : SaveFaults) (st : Running W)
      → (record_ack codec zstd js_publish r shard ack faults st).0 ≡ ok tt
      → let st' = (record_ack codec zstd js_publish r shard ack faults st).1 in
        (get st'.rep_state ack.stream ≡ (
          if r.config.snapshot.enable
          then max ack.sequence (get st.rep_state ack.stream)
          else get st.rep_state ack.stream))
        × (st'.snapshots_started ≡ (
            if r.config.snapshot.enable
              && starts_snapshot r.config r.shards shard (get st'.rep_state ack.stream)
            then st.snapshots_started + 1
            else st.snapshots_started))
        × (st'.world ≡ st.world)
  unfolding record_ack
  record_ack-ok shard ack faults st h =
      elim (Result-cases (save codec st.rep_state ack.stream ack.sequence faults).0) [
        | inl (n, e) ↦
            let saved = get-save_ok codec st.rep_state ack.stream ack.sequence faults e in
            ground arith
        | inr (inl (x, e)) ↦ ground arith
        | inr (inr (x, e)) ↦ ground arith
      ]

  pub publish-send :
      (hash : ℕ) (payload : Bytes) (faults : SaveFaults) (st : Running W)
      → IsSharded r
      → (js : J) × (lookup (hash % r.shards + 1) r.stream_map ≡ some js)
        × (publish codec zstd js_publish r hash payload faults st
            ≡ send codec zstd js_publish r (hash % r.shards + 1) js payload faults st)
  unfolding publish
  publish-send hash payload faults st sharded =
      let positive = sharded.some_shard in
      let shard = shard_id_lem hash r.shards sharded.some_shard in
      elim (Option-cases (lookup (hash % r.shards + 1) r.stream_map)) [
        | inl e ↦ absurd (sharded.stream_of (hash % r.shards + 1) (omega arith) (grind arith) e)
        | inr (js, e) ↦ (js, e, ground arith)
      ]

  send-Published :
      (hash : ℕ) (js : J) (payload : Bytes) (faults : SaveFaults) (st : Running W)
      → lookup (hash % r.shards + 1) r.stream_map ≡ some js
      → (send codec zstd js_publish r (hash % r.shards + 1) js payload faults st).0 ≡ ok tt
      → Published hash payload st
          (send codec zstd js_publish r (hash % r.shards + 1) js payload faults st).1
  unfolding send
  send-Published hash js payload faults st found h =
      elim (Result-cases (encoded codec zstd js_publish r payload)) [
        | inl (bytes, e) ↦
            let subject = subject_name r.config (hash % r.shards + 1) in
            elim (Result-cases (js_publish js subject bytes st.world).0) [
              | inl (ack, a) ↦
                  let acked =
                    record_ack-ok (hash % r.shards + 1) ack faults
                      (record st { world = (js_publish js subject bytes st.world).1 })
                      (ground arith) in
                  record {
                    js = js;
                    bytes = bytes;
                    ack = ack;
                    stream = found;
                    encodes = e;
                    sent = ground arith;
                    saved = ground arith;
                    started = ground arith;
                  }
              | inr (inl (x, a)) ↦ absurd (ground arith)
              | inr (inr (x, a)) ↦ absurd (ground arith)
            ]
        | inr (inl (x, e)) ↦ absurd (ground arith)
        | inr (inr (x, e)) ↦ absurd (ground arith)
      ]

  -- With a stream for each shard, a Publish that returns no error has put the message into the
  -- stream of shard `hash % shards + 1`, and with snapshots enabled has saved the larger number and
  -- started a snapshot exactly if one is due.
  pub publish-Published :
      (hash : ℕ) (payload : Bytes) (faults : SaveFaults) (st : Running W)
      → IsSharded r
      → (publish codec zstd js_publish r hash payload faults st).0 ≡ ok tt
      → Published hash payload st (publish codec zstd js_publish r hash payload faults st).1
  publish-Published hash payload faults st sharded h =
      let (js, found, e) = publish-send hash payload faults st sharded in
      rw e (send-Published hash js payload faults st found (rw e at h))

  send-ne-panic :
      (shard : ℕ) (js : J) (payload : Bytes) (faults : SaveFaults) (st : Running W) (m : String)
      → ((bytes : Bytes) (n : String) → zstd.compress bytes ≢ panic n)
      → ((js : J) (subject : String) (bytes : Bytes) (w : W) (n : String)
          → (js_publish js subject bytes w).0 ≢ panic n)
      → (send codec zstd js_publish r shard js payload faults st).0 ≢ panic m
  unfolding send encoded
  send-ne-panic shard js payload faults st m no_zstd no_js h =
      elim (Result-cases (encoded codec zstd js_publish r payload)) [
        | inl (bytes, e) ↦
            let subject = subject_name r.config shard in
            elim (Result-cases (js_publish js subject bytes st.world).0) [
              | inl (ack, a) ↦
                  ground (arith, save-ne-panic codec st.rep_state ack.stream ack.sequence faults m)
              | inr (inl (x, a)) ↦ ground arith
              | inr (inr (x, a)) ↦ no_js js subject bytes st.world x a
            ]
        | inr (inl (x, e)) ↦ ground arith
        | inr (inr (x, e)) ↦ no_zstd payload x (ground arith)
      ]

  -- With a stream for each shard, and a compressor and a client that do not panic, Publish does not
  -- panic.
  publish-ne-panic :
      (hash : ℕ) (payload : Bytes) (faults : SaveFaults) (st : Running W) (m : String)
      → IsSharded r
      → ((bytes : Bytes) (n : String) → zstd.compress bytes ≢ panic n)
      → ((js : J) (subject : String) (bytes : Bytes) (w : W) (n : String)
          → (js_publish js subject bytes w).0 ≢ panic n)
      → (publish codec zstd js_publish r hash payload faults st).0 ≢ panic m
  publish-ne-panic hash payload faults st m sharded no_zstd no_js h =
      let (js, found, e) = publish-send hash payload faults st sharded in
      send-ne-panic (hash % r.shards + 1) js payload faults st m no_zstd no_js (rw e at h)

-- ===== src/LogStream/Publish/Sends.antt =====
-- `Publish` of logstream/replicator.go over streams that take every message.
use marmot.Base.{
  ℕ, ◌+◌, ◌%◌, String, ◌≡◌, ◌≢◌, refl, ap, ◌∙◌, arith, none, List, [], ◌∷◌, ◌++◌, Bool-cases, inl,
  inr, nat_key,
}
use Prim.Native.Nat.{max}
use marmot.Base.Errors.{Result, ok}
use marmot.Base.Codec.{Codec}
use marmot.LogStream.State.{SeqMap, get, no_faults}
use marmot.LogStream.State.Get.{save_total}
use marmot.LogStream.Names.{subject_name}
use marmot.LogStream.Replicator.{Replicator, Compressor, Ack, Running, Bytes}
use marmot.LogStream.Publish.{starts_snapshot, encoded, record_ack, send, publish}
use marmot.LogStream.Publish.Shard.{IsSharded, publish-send}

module _ {J W : Type 0} (codec : Codec SeqMap) (zstd : Compressor)
    (js_publish : J → String → Bytes → W → Result Ack × W) (r : Replicator J)
    (messages : W → List Bytes) where
  -- The streams take each message, and `messages` are those that they have taken.
  abbrev pub Takes : Type 0
  Takes =
      (js : J) (subject : String) (bytes : Bytes) (w : W)
      → (ack : Ack) × (w' : W) × (js_publish js subject bytes w ≡ (ok ack, w'))
        × (messages w' ≡ messages w ++ bytes ∷ [])

  -- A run that ends well, with the file of the sequence map open, and one message more.
  abbrev pub Sent : Bytes → Running W → Result (Unit {0}) × Running W → Type 0
  Sent bytes st (result, st') =
      (result ≡ ok tt)
      × (st'.rep_state.fl ≢ none)
      × (messages st'.world ≡ messages st.world ++ bytes ∷ [])

  abbrev Recorded : Running W → Result (Unit {0}) × Running W → Type 0
  Recorded st (result, st') = (result ≡ ok tt) × (st'.rep_state.fl ≢ none) × (st'.world ≡ st.world)

  record_ack-Recorded :
      (shard : ℕ) (ack : Ack) (st : Running W)
      → st.rep_state.fl ≢ none
      → Recorded st (record_ack codec zstd js_publish r shard ack no_faults st)
  unfolding record_ack
  record_ack-Recorded shard ack st opened =
      let (kept, saved) = save_total codec st.rep_state ack.stream ack.sequence no_faults opened in
      let seq = saved refl in
      elim (Bool-cases r.config.snapshot.enable) [
        | inr off ↦ rw off (refl, opened, refl)
        | inl on ↦
            elim (Bool-cases (
              starts_snapshot r.config r.shards shard
                (max ack.sequence (get st.rep_state ack.stream)))) [
                  | inl due ↦ rw (on, seq, due) (refl, kept, refl)
                  | inr early ↦ rw (on, seq, early) (refl, kept, refl)
                ]
      ]

  send_acked :
      (shard : ℕ) (js : J) (payload bytes : Bytes) (st : Running W) (ack : Ack) (w' : W)
      → encoded codec zstd js_publish r payload ≡ ok bytes
      → js_publish js (subject_name r.config shard) bytes st.world ≡ (ok ack, w')
      → send codec zstd js_publish r shard js payload no_faults st
        ≡ record_ack codec zstd js_publish r shard ack no_faults (record st { world = w' })
  unfolding send record_ack
  send_acked shard js payload bytes st ack w' encodes sent = ground arith

  -- A Publish over such streams sends its payload as one message.
  pub publish-Sent :
      (hash : ℕ) (payload bytes : Bytes) (st : Running W)
      → IsSharded r
      → Takes
      → encoded codec zstd js_publish r payload ≡ ok bytes
      → st.rep_state.fl ≢ none
      → Sent bytes st (publish codec zstd js_publish r hash payload no_faults st)
  publish-Sent hash payload bytes st sharded takes encodes opened =
      let shard = hash % r.shards + 1 in
      let (js, _, e) = publish-send codec zstd js_publish r hash payload no_faults st sharded in
      let (ack, w', sent, more) = takes js (subject_name r.config shard) bytes st.world in
      let (fine, kept, same) = record_ack-Recorded shard ack (record st { world = w' }) opened in
      rw (e, send_acked shard js payload bytes st ack w' encodes sent)
        (fine, kept, ap messages same ∙ more)

-- ===== src/LogStream/Listen/Replay.antt =====
-- What a listener applies, in a calm run of `Listen` of logstream/replicator.go, and what it skips when
-- another goroutine of the node saves a higher number.
use Prim.Native.Nat.{max}
use mathlib.Core.List.{foldl}
use marmot.Base.{
  ℕ, ◌≤◌, ◌<◌, String, ◌≡◌, ◌≢◌, refl, inl, inr, arith, none, List, [], ◌∷◌, ltb, nat_key,
  Option-cases, Bool-cases, map, keep_if, All, string_key,
}
use marmot.Base.Maps.{lookup}
use marmot.Base.Errors.{Result, ok}
use marmot.Base.Codec.{Codec}
use marmot.LogStream.State.{SeqMap, save, get, no_faults}
use marmot.LogStream.State.Get.{get-save_ok, save_total}
use marmot.LogStream.Names.{stream_name}
use marmot.LogStream.Replicator.{Replicator, Compressor, Bytes}
use marmot.LogStream.Listen.{
  Message, Turn, delivered, Listening, continue, invoke_listener, proceed, turn, loop, listen,
}

-- A message of stream `name` for which no client call and no disk write fails.
pub record IsCalm (name : String) (msg : Message) : Type 0 where
  pub of_stream : msg.stream ≡ name
  pub metadata : msg.metadata ≡ none
  pub ack : msg.ack ≡ none
  pub faults : msg.faults ≡ no_faults

-- The numbers rise strictly from above `low`, as JetStream delivers a stream.
abbrev pub Rising : ℕ → List Message → Type 0
Rising low [] = Unit {0}
Rising low (m ∷ ms) = (low < m.sequence) × Rising m.sequence ms

module _ {J W : Type 0} (codec : Codec SeqMap) (zstd : Compressor) (r : Replicator J)
    (callback : Bytes → W → Result (Unit {0}) × W) (name : String) where
  -- What the callback does with a message that it accepts.
  abbrev pub applies : Message → W → W
  applies msg w = (invoke_listener codec zstd r callback msg w).1

  -- The callback accepts every one of the messages, in any world.
  abbrev pub Accepted : Message → Type 0
  Accepted msg = (w : W) → (invoke_listener codec zstd r callback msg w).0 ≡ ok tt

  -- A calm message above `savedSeq` is applied, saved and acknowledged.
  pub turn-delivered :
      (msg : Message) (saved_seq : ℕ) (st : Listening W)
      → IsCalm name msg
      → Accepted msg
      → st.rep_state.fl ≢ none
      → saved_seq < msg.sequence
      → turn codec zstd r callback (delivered msg) saved_seq st
        ≡ continue (max msg.sequence (get st.rep_state name)) (record {
          rep_state = (save codec st.rep_state name msg.sequence no_faults).1;
          acked = msg.sequence ∷ st.acked;
          naked = st.naked;
          world = applies msg st.world;
        })
  unfolding turn
  turn-delivered msg saved_seq st calm accepted opened lt =
      let stored = (save_total codec st.rep_state name msg.sequence no_faults opened).1 refl in
      ground (arith, accepted st.world)

  -- A message not above `savedSeq` is skipped.
  pub turn_skips :
      (msg : Message) (saved_seq : ℕ) (st : Listening W)
      → msg.metadata ≡ none
      → msg.sequence ≤ saved_seq
      → turn codec zstd r callback (delivered msg) saved_seq st ≡ continue saved_seq st
  unfolding turn
  turn_skips msg saved_seq st metadata le = ground arith

  -- What a run that ends well leaves.
  abbrev pub Ran : (W → W) → Listening W → Result (Unit {0}) × Listening W → Type 0
  Ran f st (result, st') = (result ≡ ok tt) × (st'.world ≡ f st.world) × (st'.naked ≡ st.naked)

  abbrev pub apply_all : List Message → W → W
  apply_all msgs w = foldl (λ w msg. applies msg w) w msgs

  loop_applies :
      (msgs : List Message) (saved_seq : ℕ) (st : Listening W)
      → All (IsCalm name) msgs
      → All Accepted msgs
      → Rising saved_seq msgs
      → st.rep_state.fl ≢ none
      → get st.rep_state name ≤ saved_seq
      → Ran (apply_all msgs) st (loop codec zstd r callback (map delivered msgs) saved_seq st)
  unfolding loop proceed
  loop_applies [] saved_seq st calm accepted rising opened low = (refl, refl, refl)
  loop_applies (msg ∷ msgs) saved_seq st calm accepted rising opened low =
      let stored = save_total codec st.rep_state name msg.sequence no_faults opened in
      let (_, stored_seq) =
        get-save_ok codec st.rep_state name msg.sequence no_faults (stored.1 refl) in
      let seq : max msg.sequence (get st.rep_state name) ≡ msg.sequence = omega arith in
      rw (turn-delivered msg saved_seq st calm.0 accepted.0 opened rising.0, seq)
        (loop_applies msgs msg.sequence _ calm.1 accepted.1 rising.1 stored.0 (omega arith))

  Rising-kept :
      (msgs : List Message) (low saved_seq : ℕ)
      → saved_seq ≤ low
      → Rising low msgs
      → keep_if (λ msg. ltb saved_seq msg.sequence) msgs ≡ msgs
  Rising-kept [] low saved_seq le rising = refl
  Rising-kept (msg ∷ msgs) low saved_seq le rising =
      let rest = Rising-kept msgs msg.sequence saved_seq (omega arith) rising.1 in ground arith

  -- The messages above `savedSeq` are applied in order, and the others are skipped.
  loop_replays :
      (msgs : List Message) (low saved_seq : ℕ) (st : Listening W)
      → All (IsCalm name) msgs
      → All Accepted msgs
      → Rising low msgs
      → st.rep_state.fl ≢ none
      → get st.rep_state name ≤ saved_seq
      → Ran
          (apply_all (keep_if (λ msg. ltb saved_seq msg.sequence) msgs))
          st
          (loop codec zstd r callback (map delivered msgs) saved_seq st)
  unfolding loop proceed
  loop_replays [] low saved_seq st calm accepted rising opened saved = (refl, refl, refl)
  loop_replays (msg ∷ msgs) low saved_seq st calm accepted rising opened saved =
      elim (Bool-cases (ltb saved_seq msg.sequence)) [
        | inl e ↦
            rw (e, Rising-kept msgs msg.sequence saved_seq (ground arith) rising.1)
              (loop_applies (msg ∷ msgs) saved_seq st calm accepted (ground arith, rising.1) opened
                saved)
        | inr e ↦
            rw (e, turn_skips msg saved_seq st calm.0.metadata (ground arith))
              (loop_replays msgs msg.sequence saved_seq st calm.1 accepted.1 rising.1 opened saved)
      ]

module _ {J W : Type 0} (codec : Codec SeqMap) (zstd : Compressor) (r : Replicator J)
    (callback : Bytes → W → Result (Unit {0}) × W) (shard : ℕ) (st : Listening W) where
  abbrev pub name_of : String
  name_of = stream_name r.config shard r.compression_enabled

  pub listen-loop :
      (turns : List Turn)
      → lookup shard r.stream_map ≢ none
      → listen codec zstd r callback shard none turns st
        ≡ loop codec zstd r callback turns (get st.rep_state name_of) st
  unfolding listen
  listen-loop turns known = elim (Option-cases (lookup shard r.stream_map)) [
    | inl e ↦ absurd (known e)
    | inr (js, e) ↦ rw (e, listen) refl
  ]

  -- With the sequence map's file open and a callback that accepts each message, a listener to which
  -- the messages of its stream come in order, with no failing call and nobody else saving, applies
  -- exactly those above the saved number, in their order, and refuses none.
  pub listen_replays :
      (msgs : List Message) (low : ℕ)
      → lookup shard r.stream_map ≢ none
      → st.rep_state.fl ≢ none
      → All (IsCalm name_of) msgs
      → All (Accepted codec zstd r callback name_of) msgs
      → Rising low msgs
      → Ran codec zstd r callback name_of
          (apply_all codec zstd r callback name_of
            (keep_if (λ msg. ltb (get st.rep_state name_of) msg.sequence) msgs))
          st
          (listen codec zstd r callback shard none (map delivered msgs) st)
  listen_replays msgs low known opened calm accepted rising =
      rw (listen-loop (map delivered msgs) known) (
        loop_replays codec zstd r callback name_of msgs low _ st calm accepted rising opened
          (omega arith))

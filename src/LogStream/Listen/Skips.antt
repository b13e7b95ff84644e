-- ===== src/LogStream/Listen/Skips.antt =====
-- What `Listen` of logstream/replicator.go skips when another goroutine of the node saves a higher number.
use Prim.Native.Nat.{max}
use marmot.Base.{
  ℕ, ◌≤◌, ◌<◌, String, ◌≡◌, ◌≢◌, refl, arith, none, List, [], ◌∷◌, nat_key, map, All, string_key,
}
use marmot.Base.Maps.{lookup}
use marmot.Base.Errors.{Result, ok}
use marmot.Base.Codec.{Codec}
use marmot.LogStream.State.{SeqMap, save, get, no_faults}
use marmot.LogStream.State.Get.{get-save_ok, save_total}
use marmot.LogStream.Replicator.{Replicator, Compressor, Bytes}
use marmot.LogStream.Listen.{
  Message, delivered, elsewhere, Listening, continue, proceed, turn, loop, listen,
}
use marmot.LogStream.Listen.Replay.{
  IsCalm, Accepted, applies, turn-delivered, turn_skips, name_of, listen-loop,
}

module _ {J W : Type 0} (codec : Codec SeqMap) (zstd : Compressor) (r : Replicator J)
    (callback : Bytes → W → Result (Unit {0}) × W) (name : String) where
  loop_skips :
      (msgs : List Message) (saved_seq : ℕ) (st : Listening W)
      → All (λ msg. (msg.metadata ≡ none) × (msg.sequence ≤ saved_seq)) msgs
      → loop codec zstd r callback (map delivered msgs) saved_seq st ≡ (ok tt, st)
  unfolding loop proceed
  loop_skips [] saved_seq st old = refl
  loop_skips (msg ∷ msgs) saved_seq st old =
      rw (turn_skips codec zstd r callback name msg saved_seq st old.0.0 old.0.1)
        (loop_skips msgs saved_seq st old.1)

  turn_elsewhere :
      (ahead saved_seq : ℕ) (st : Listening W)
      → turn codec zstd r callback (elsewhere name ahead no_faults) saved_seq st
        ≡ continue saved_seq
            (record st { rep_state = (save codec st.rep_state name ahead no_faults).1 })
  unfolding turn
  turn_elsewhere ahead saved_seq st = refl

  still_old :
      (m n : ℕ) (msgs : List Message)
      → m ≤ n
      → All (λ msg. (msg.metadata ≡ none) × (msg.sequence ≤ m)) msgs
      → All (λ msg. (msg.metadata ≡ none) × (msg.sequence ≤ n)) msgs
  still_old m n [] le old = tt
  still_old m n (msg ∷ msgs) le old = ((old.0.0, omega arith), still_old m n msgs le old.1)

  -- One message is applied after another goroutine has saved `ahead`: the rest up to there is not.
  loop_skips_ahead :
      (ahead saved_seq : ℕ) (msg : Message) (msgs : List Message) (st : Listening W)
      → IsCalm name msg
      → Accepted codec zstd r callback name msg
      → st.rep_state.fl ≢ none
      → saved_seq < msg.sequence
      → msg.sequence ≤ ahead
      → All (λ later. (later.metadata ≡ none) × (later.sequence ≤ ahead)) msgs
      → let run =
          loop codec zstd r callback
            (elsewhere name ahead no_faults ∷ delivered msg ∷ map delivered msgs)
            saved_seq
            st in
        (run.0 ≡ ok tt)
        × (run.1.world ≡ applies codec zstd r callback name msg st.world)
        × (run.1.acked ≡ msg.sequence ∷ st.acked)
  unfolding loop proceed
  loop_skips_ahead ahead saved_seq msg msgs st calm accepted opened lt le old =
      let first = save_total codec st.rep_state name ahead no_faults opened in
      let (_, first_seq) = get-save_ok codec st.rep_state name ahead no_faults (first.1 refl) in
      let st₁ : Listening W = record st {
        rep_state = (save codec st.rep_state name ahead no_faults).1;
      } in
      let st₂ : Listening W = record {
        rep_state = (save codec st₁.rep_state name msg.sequence no_faults).1;
        acked = msg.sequence ∷ st.acked;
        naked = st.naked;
        world = applies codec zstd r callback name msg st.world;
      } in
      let saved_seq' : ℕ = max msg.sequence (get st₁.rep_state name) in
      let rest =
        loop_skips msgs saved_seq' st₂ (still_old ahead saved_seq' msgs (omega arith) old) in
      rw
        (
          turn_elsewhere ahead saved_seq st,
          turn-delivered codec zstd r callback name msg saved_seq st₁ calm accepted first.0 lt,
        )
        (rw rest (refl, refl, refl))

module _ {J W : Type 0} (codec : Codec SeqMap) (zstd : Compressor) (r : Replicator J)
    (callback : Bytes → W → Result (Unit {0}) × W) (shard : ℕ) (st : Listening W) where
  -- With the sequence map's file open and no failing call: if the node saves a number for the
  -- stream before the listener has caught up, the listener applies the next message, and skips all
  -- others up to that number, though nobody on the node has applied them.
  pub listen_skips_ahead :
      (ahead : ℕ) (msg : Message) (msgs : List Message)
      → lookup shard r.stream_map ≢ none
      → st.rep_state.fl ≢ none
      → IsCalm (name_of codec zstd r callback shard st) msg
      → Accepted codec zstd r callback (name_of codec zstd r callback shard st) msg
      → get st.rep_state (name_of codec zstd r callback shard st) < msg.sequence
      → msg.sequence ≤ ahead
      → All (λ later. (later.metadata ≡ none) × (later.sequence ≤ ahead)) msgs
      → let run =
          listen codec zstd r callback shard none
            (elsewhere (name_of codec zstd r callback shard st) ahead no_faults
              ∷ delivered msg
              ∷ map delivered msgs)
            st in
        (run.0 ≡ ok tt)
        × (run.1.world
            ≡ applies codec zstd r callback (name_of codec zstd r callback shard st) msg st.world)
        × (run.1.acked ≡ msg.sequence ∷ st.acked)
  listen_skips_ahead ahead msg msgs known opened calm accepted lt le old =
      rw (listen-loop codec zstd r callback shard st _ known) (
        loop_skips_ahead codec zstd r callback (name_of codec zstd r callback shard st) ahead _ msg
          msgs st calm accepted opened lt le old)

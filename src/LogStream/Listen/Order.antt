-- ===== src/LogStream/Listen/Order.antt =====
-- The order in which `Listen` of logstream/replicator.go acknowledges, whatever is delivered.
use marmot.Base.{
  ℕ, suc, ◌≤◌, ◌<◌, ◌≡◌, inl, inr, arith, Option, List, [], ◌∷◌, leb, nat_key, Option-cases,
  Bool-cases,
}
use marmot.Base.Maps.{lookup}
use marmot.Base.Errors.{Error, Result, ok, err, panic, Result-cases, errors_is, timeout, canceled}
use marmot.Base.Codec.{Codec}
use marmot.LogStream.State.{SeqMap, save}
use marmot.LogStream.State.Get.{get-save_ok}
use marmot.LogStream.Replicator.{Replicator, Compressor, Bytes}
use marmot.LogStream.Listen.{
  Message, Turn, failed, delivered, elsewhere, Listening, Outcome, continue, stop, invoke_listener,
  settle, handle, proceed, turn, loop, listen,
}

-- Newest first: every number is above those before it, and all are below the bound.
abbrev pub Below : ℕ → List ℕ → Type 0
Below bound [] = Unit {0}
Below bound (n ∷ ns) = (n < bound) × Below n ns

module _ {J W : Type 0} (codec : Codec SeqMap) (zstd : Compressor) (r : Replicator J)
    (callback : Bytes → W → Result (Unit {0}) × W) where
  -- What a turn leaves: acknowledged numbers that rise, none above `savedSeq` if the loop goes on.
  abbrev Risen : Outcome W → Type 0
  Risen (continue saved_seq st) = Below (suc saved_seq) st.acked
  Risen (stop result st) = (bound : ℕ) × Below bound st.acked

  Below-mono : (m n : ℕ) (ns : List ℕ) → m ≤ n → Below m ns → Below n ns
  Below-mono m n [] h b = tt
  Below-mono m n (k ∷ ns) h b = (omega arith, b.1)

  settle-Risen :
      (msg : Message) (result : Result (Unit {0})) (saved_seq : ℕ) (st : Listening W)
      → saved_seq < msg.sequence
      → Below (suc saved_seq) st.acked
      → Risen (settle codec zstd r callback msg result st)
  unfolding settle
  settle-Risen msg (panic m) saved_seq st lt b = (suc saved_seq, b)
  settle-Risen msg (err e) saved_seq st lt b = elim (Bool-cases (errors_is e canceled)) [
    | inl h ↦ rw h (suc saved_seq, b)
    | inr h ↦ rw h (suc saved_seq, b)
  ]
  settle-Risen msg (ok _) saved_seq st lt b =
      elim (Result-cases (save codec st.rep_state msg.stream msg.sequence msg.faults).0) [
        | inl (n, e) ↦
            let saved = get-save_ok codec st.rep_state msg.stream msg.sequence msg.faults e in
            elim (Option-cases msg.ack) [
              | inl a ↦
                  rw (e, a, settle)
                    (omega arith, Below-mono (suc saved_seq) msg.sequence st.acked lt b)
              | inr (x, a) ↦ rw (e, a, settle) (suc saved_seq, b)
            ]
        | inr (inl (x, e)) ↦ rw (e, settle) (suc saved_seq, b)
        | inr (inr (x, e)) ↦ rw (e, settle) (suc saved_seq, b)
      ]

  handle-Risen :
      (msg : Message) (saved_seq : ℕ) (st : Listening W)
      → Below (suc saved_seq) st.acked
      → Risen (handle codec zstd r callback msg saved_seq st)
  unfolding handle
  handle-Risen msg saved_seq st b = elim (Bool-cases (leb msg.sequence saved_seq)) [
    | inl e ↦ rw e b
    | inr e ↦ rw e (
        settle-Risen msg (invoke_listener codec zstd r callback msg st.world).0 saved_seq _
          (ground arith) b)
  ]

  turn-Risen :
      (t : Turn) (saved_seq : ℕ) (st : Listening W)
      → Below (suc saved_seq) st.acked
      → Risen (turn codec zstd r callback t saved_seq st)
  unfolding turn
  turn-Risen (failed e) saved_seq st b = elim (Bool-cases (errors_is e timeout)) [
    | inl h ↦ rw h b
    | inr h ↦ rw h (suc saved_seq, b)
  ]
  turn-Risen (elsewhere stream seq faults) saved_seq st b = b
  turn-Risen (delivered msg) saved_seq st b = elim (Option-cases msg.metadata) [
    | inl e ↦ rw e (handle-Risen msg saved_seq st b)
    | inr (x, e) ↦ rw e (suc saved_seq, b)
  ]

  proceed-Risen :
      (o : Outcome W) (rest : ℕ → Listening W → Result (Unit {0}) × Listening W)
      → Risen o
      → ((saved_seq : ℕ) (st : Listening W)
          → Below (suc saved_seq) st.acked
          → (bound : ℕ) × Below bound (rest saved_seq st).1.acked)
      → (bound : ℕ) × Below bound (proceed codec zstd r callback o rest).1.acked
  unfolding proceed
  proceed-Risen (continue saved_seq st) rest risen h = h saved_seq st risen
  proceed-Risen (stop result st) rest risen h = risen

  loop-Risen :
      (turns : List Turn) (saved_seq : ℕ) (st : Listening W)
      → Below (suc saved_seq) st.acked
      → (bound : ℕ) × Below bound (loop codec zstd r callback turns saved_seq st).1.acked
  unfolding loop
  loop-Risen [] saved_seq st b = (suc saved_seq, b)
  loop-Risen (t ∷ turns) saved_seq st b =
      proceed-Risen (turn codec zstd r callback t saved_seq st) (loop codec zstd r callback turns)
        (turn-Risen t saved_seq st b) (loop-Risen turns)

  -- Whatever is delivered, again or out of order, and whatever other goroutines save meanwhile, the
  -- numbers that Listen acknowledges rise strictly, so it acknowledges no message twice.
  pub listen_in_order :
      (shard : ℕ) (subscribed : Option Error) (turns : List Turn) (st : Listening W)
      → st.acked ≡ []
      → (bound : ℕ) × Below bound (listen codec zstd r callback shard subscribed turns st).1.acked
  unfolding listen
  listen_in_order shard subscribed turns st none_yet =
      elim (Option-cases (lookup shard r.stream_map)) [
        | inl e ↦ rw (e, listen, Below) (0, rw none_yet tt)
        | inr (js, e) ↦ elim (Option-cases subscribed) [
          | inl s ↦ rw (e, s, listen, Below) (loop-Risen turns _ st (rw none_yet tt))
          | inr (x, s) ↦ rw (e, s, listen, Below) (0, rw none_yet tt)
        ]
      ]

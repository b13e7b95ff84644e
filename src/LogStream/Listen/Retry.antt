-- ===== src/LogStream/Listen/Retry.antt =====
-- The retries of `invokeListener` of logstream/replicator.go.
use marmot.Base.{ℕ, zero, suc, ◌+◌, ◌<◌, ◌≡◌, refl, arith, none, true, false}
use marmot.Base.Errors.{Error, Result, ok, err, is_value, canceled}
use marmot.Base.Codec.{Codec}
use marmot.LogStream.State.{SeqMap}
use marmot.LogStream.Replicator.{Replicator, Compressor, Bytes}
use marmot.LogStream.Listen.{Message, attempts, decoded, invoke_listener}

module _ {J W : Type 0} (codec : Codec SeqMap) (zstd : Compressor) (r : Replicator J)
    (callback : Bytes → W → Result (Unit {0}) × W) (msg : Message) (payload : Bytes) where
  -- The world after `n` calls of the callback.
  abbrev pub called : ℕ → W → W
  called zero w = w
  called (suc n) w = called n (callback payload w).1

  -- The next `n` calls fail, and not by a cancelled context.
  abbrev pub Fails : ℕ → W → Type 0
  Fails zero w = Unit {0}
  Fails (suc n) w =
      (e : Error) × ((callback payload w).0 ≡ err e)
      × (is_value e canceled ≡ false)
      × Fails n (callback payload w).1

  attempts_fail :
      (n attempt : ℕ) (last : Error) (w : W)
      → ((i : ℕ) → msg.in_progress i ≡ none)
      → Fails n w
      → (e : Error) × (attempts codec zstd r callback n attempt msg payload (err last) w
          ≡ (err e, called n w))
  unfolding attempts
  attempts_fail zero attempt last w alive fails = (last, refl)
  attempts_fail (suc n) attempt last w alive (e, failed, other, rest) =
      let (e', ih) = attempts_fail n (attempt + 1) e (callback payload w).1 alive rest in
      (e', ground (arith, alive attempt))

  attempts_exhausted :
      (n attempt : ℕ) (last : Result (Unit {0})) (w : W)
      → ((i : ℕ) → msg.in_progress i ≡ none)
      → Fails (suc n) w
      → (e : Error) × (attempts codec zstd r callback (suc n) attempt msg payload last w
          ≡ (err e, called (suc n) w))
  unfolding attempts
  attempts_exhausted n attempt last w alive (e, failed, other, rest) =
      let (e', ih) = attempts_fail n (attempt + 1) e (callback payload w).1 alive rest in
      (e', ground (arith, alive attempt))

  attempts_recover :
      (k n attempt : ℕ) (last : Result (Unit {0})) (w : W)
      → ((i : ℕ) → msg.in_progress i ≡ none)
      → k < n
      → Fails k w
      → (callback payload (called k w)).0 ≡ ok tt
      → attempts codec zstd r callback n attempt msg payload last w ≡ (ok tt, called (suc k) w)
  unfolding attempts
  attempts_recover k zero attempt last w alive lt fails accepted = absurd (omega arith)
  attempts_recover zero (suc n) attempt last w alive lt fails accepted =
      ground (arith, alive attempt)
  attempts_recover (suc k) (suc n) attempt last w alive lt (e, failed, other, rest) accepted =
      let ih =
        attempts_recover k n (attempt + 1) (err e) (callback payload w).1 alive (omega arith) rest
          accepted in
      ground (arith, alive attempt)

  attempts_canceled :
      (k n attempt : ℕ) (last : Result (Unit {0})) (w : W) (x : Error)
      → ((i : ℕ) → msg.in_progress i ≡ none)
      → k < n
      → Fails k w
      → (callback payload (called k w)).0 ≡ err x
      → is_value x canceled ≡ true
      → attempts codec zstd r callback n attempt msg payload last w ≡ (err x, called (suc k) w)
  unfolding attempts
  attempts_canceled k zero attempt last w x alive lt fails stops is = absurd (omega arith)
  attempts_canceled zero (suc n) attempt last w x alive lt fails stops is =
      ground (arith, alive attempt)
  attempts_canceled (suc k) (suc n) attempt last w x alive lt (e, failed, other, rest) stops is =
      let ih =
        attempts_canceled k n (attempt + 1) (err e) (callback payload w).1 x alive (omega arith)
          rest stops is in
      ground (arith, alive attempt)

  -- For a message that decodes, and while InProgress succeeds: if the callback fails at most six
  -- times, never with context.Canceled, and then accepts, the listener accepts after one call more;
  -- if it fails seven times, never with context.Canceled, the listener fails after exactly seven
  -- calls; if it fails with context.Canceled after at most six other failures, the listener fails
  -- with that after that call.
  pub invoke_listener_retries :
      (w : W)
      → decoded codec zstd r callback msg.content ≡ ok payload
      → ((i : ℕ) → msg.in_progress i ≡ none)
      → ((k : ℕ)
          → k < 7
          → Fails k w
          → (callback payload (called k w)).0 ≡ ok tt
          → invoke_listener codec zstd r callback msg w ≡ (ok tt, called (suc k) w))
        × (Fails 7 w
            → (e : Error) × (invoke_listener codec zstd r callback msg w ≡ (err e, called 7 w)))
        × ((k : ℕ) (x : Error)
            → k < 7
            → Fails k w
            → (callback payload (called k w)).0 ≡ err x
            → is_value x canceled ≡ true
            → invoke_listener codec zstd r callback msg w ≡ (err x, called (suc k) w))
  unfolding invoke_listener
  invoke_listener_retries w decodes alive = (
    λ k lt fails accepted.
        rw (decodes, invoke_listener) (attempts_recover k 7 0 (ok tt) w alive lt fails accepted),
    λ fails. rw (decodes, invoke_listener) (attempts_exhausted 6 0 (ok tt) w alive fails),
    λ k x lt fails stops is.
        rw (decodes, invoke_listener) (attempts_canceled k 7 0 (ok tt) w x alive lt fails stops is),
  )

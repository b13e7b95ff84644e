-- ===== src/LogStream/State/Get.antt =====
-- What `save` of logstream/replication_state.go does to the numbers that `get` returns.
use Prim.Native.Nat.{max}
use marmot.Base.{ℕ, ◌≤◌, String, ◌≡◌, ◌≢◌, arith, inl, inr, none, Option-cases, eq_iff, string_key}
use marmot.Base.Maps.{lookup-insert}
use marmot.Base.Errors.{panic, ok}
use marmot.Base.Codec.{Codec}
use marmot.LogStream.State.{ReplicationState, SeqMap, SaveFaults, no_faults, save, get}

module _ (codec : Codec SeqMap) (r : ReplicationState) (stream : String) (seq : ℕ)
    (faults : SaveFaults) where
  -- A save that returns a number returns the larger of the old and the new one, and get of the
  -- stream returns that number afterwards.
  pub get-save_ok :
      {n : ℕ}
      → (save codec r stream seq faults).0 ≡ ok n
      → (n ≡ max seq (get r stream)) × (get (save codec r stream seq faults).1 stream ≡ n)
  unfolding save get
  get-save_ok h = ground (arith, lookup-insert stream stream seq r.seq, eq_iff stream stream)

  -- Whatever save returns, no stream's number falls, and only the saved stream's can change.
  get-save_mono :
      (k : String)
      → (get r k ≤ get (save codec r stream seq faults).1 k)
        × (stream ≢ k → get (save codec r stream seq faults).1 k ≡ get r k)
  unfolding save get
  get-save_mono k = (
    ground (arith, lookup-insert stream k seq r.seq, eq_iff stream k),
    λ ne. ground (arith, lookup-insert stream k seq r.seq, eq_iff stream k),
  )

  pub save-ne-panic : (m : String) → (save codec r stream seq faults).0 ≢ panic m
  unfolding save
  save-ne-panic m h = ground arith

  -- The file stays open, and on an open file a `save` without faults returns a number.
  pub save_total :
      r.fl ≢ none
      → ((save codec r stream seq faults).1.fl ≢ none)
        × (faults ≡ no_faults → (save codec r stream seq faults).0 ≡ ok (max seq (get r stream)))
  unfolding save get
  save_total opened = elim (Option-cases r.fl) [
    | inl e ↦ absurd (opened e)
    | inr (file, e) ↦ (ground arith, λ calm. ground arith)
  ]

-- ===== src/Db/Replicate/Converge.antt =====
-- Two nodes that `Replicate` (db/change_log.go) what the shards deliver come to the same rows.
use marmot.Base.{
  List-cases, ℕ, String, ◌≡◌, refl, sym, ap, ◌∙◌, inl, inr, arith, nat_beq, nat_beq_iff, Bool, true,
  Option, List, [], ◌∷◌, keep_if, Key, string_key, Bool-cases,
}
use marmot.Base.Errors.{Error, ok, err}
use marmot.Db.Event.{Row, ChangeLogEvent}
use marmot.Db.Store.{SqliteStreamDb}
use marmot.Db.Replicate.{Engine, TxFaults, replicate}
use marmot.Db.Replicate.Laws.{HasKeys}
use marmot.Db.Replicate.Effect.{touches, row_after, replicate-effect, replicate_failed}

-- A replay of the events in their order: each is tried until it is accepted.
pub data Replayed {W D : Type 0} (conn : SqliteStreamDb W) (engine : Engine D)
    : List ChangeLogEvent → D → D → Type 0 where
  done : (d : D) → Replayed conn engine [] d d
  accepted :
      (e : ChangeLogEvent) (es : List ChangeLogEvent) (faults : TxFaults) (d d' : D)
      → (replicate conn engine faults e d).0 ≡ ok tt
      → Replayed conn engine es (replicate conn engine faults e d).1 d'
      → Replayed conn engine (e ∷ es) d d'
  retried :
      (e : ChangeLogEvent) (es : List ChangeLogEvent) (faults : TxFaults) (x : Error) (d d' : D)
      → (replicate conn engine faults e d).0 ≡ err x
      → Replayed conn engine (e ∷ es) (replicate conn engine faults e d).1 d'
      → Replayed conn engine (e ∷ es) d d'

kept_head :
    {A : Type 0} (p : A → Bool) (xs : List A) (x : A) (rest : List A)
    → keep_if p xs ≡ x ∷ rest
    → p x ≡ true
kept_head p [] x rest h = cc
kept_head p (y ∷ xs) x rest h = elim (Bool-cases (p y)) [
  | inl e ↦ ground (arith, e)
  | inr e ↦ kept_head p xs x rest (rw e at (h))
]

-- A filter whose hits pass another one may come after it.
keep_if-keep_if :
    {A : Type 0} (p q : A → Bool) (xs : List A)
    → ((x : A) → p x ≡ true → q x ≡ true)
    → keep_if p (keep_if q xs) ≡ keep_if p xs
keep_if-keep_if p q [] sub = refl
keep_if-keep_if p q (x ∷ xs) sub = let ih = keep_if-keep_if p q xs sub in ground (arith, sub x)

module _ {W D K : Type 0} ⦃key : Key K⦄ (conn : SqliteStreamDb W) (engine : Engine D)
    (keys : HasKeys conn engine K) where
  -- The last event's row, or the old one where there is no event.
  abbrev pub after : List ChangeLogEvent → Option Row → Option Row
  after [] old = old
  after (e ∷ es) old = after es (row_after conn engine keys e)

  -- The row that a replay leaves under a key is what the last event about the key leaves, and the old
  -- row where no event is about it.
  pub row_of_last :
      (es : List ChangeLogEvent) (d d' : D) (t : String) (k : K)
      → Replayed conn engine es d d'
      → keys.row_at t k d' ≡ after (keep_if (touches conn engine keys t k) es) (keys.row_at t k d)
  row_of_last _ _ _ t k (done d) = refl
  row_of_last _ _ _ t k (accepted e es faults d d' fine run) =
      ground
        (arith, row_of_last es _ d' t k run, replicate-effect conn engine keys e faults d t k fine)
  row_of_last _ _ _ t k (retried e es faults x d d' failed run) =
      let ih = row_of_last (e ∷ es) _ d' t k run in
      let same : (replicate conn engine faults e d).1 ≡ d =
        replicate_failed conn engine e faults d (λ fine. ground arith) in
      rw same at (ih)

module _ {W D K : Type 0} ⦃key : Key K⦄ (conn : SqliteStreamDb W) (engine : Engine D)
    (keys : HasKeys conn engine K) (shard_of : ChangeLogEvent → ℕ)
    (one_shard : (a b : ChangeLogEvent) (t : String) (k : K)
      → touches conn engine keys t k a ≡ true
      → touches conn engine keys t k b ≡ true
      → shard_of a ≡ shard_of b) where
  abbrev in_shard : ℕ → ChangeLogEvent → Bool
  in_shard shard e = nat_beq (shard_of e) shard

  -- What a key gets of the events, it gets of those of its shard.
  of_shard :
      (es : List ChangeLogEvent) (t : String) (k : K) (e : ChangeLogEvent)
      → touches conn engine keys t k e ≡ true
      → keep_if (touches conn engine keys t k) (keep_if (in_shard (shard_of e)) es)
        ≡ keep_if (touches conn engine keys t k) es
  of_shard es t k e hit =
      keep_if-keep_if (touches conn engine keys t k) (in_shard (shard_of e)) es
        (λ x h. (nat_beq_iff (shard_of x) (shard_of e)).1 (one_shard x e t k h hit))

  same_for_key :
      (es fs : List ChangeLogEvent)
      → ((shard : ℕ) → keep_if (in_shard shard) es ≡ keep_if (in_shard shard) fs)
      → (t : String) (k : K)
      → keep_if (touches conn engine keys t k) es ≡ keep_if (touches conn engine keys t k) fs
  same_for_key es fs shards t k = elim (List-cases (keep_if (touches conn engine keys t k) es)) [
    | inr (e, rest, h) ↦ through e (kept_head _ es e rest h)
    | inl none_here ↦ elim (List-cases (keep_if (touches conn engine keys t k) fs)) [
      | inr (e, rest, h) ↦ through e (kept_head _ fs e rest h)
      | inl none_there ↦ none_here ∙ sym none_there
    ]
  ]
    where
      through :
          (e : ChangeLogEvent)
          → touches conn engine keys t k e ≡ true
          → keep_if (touches conn engine keys t k) es ≡ keep_if (touches conn engine keys t k) fs
      through e hit =
          sym (of_shard es t k e hit)
          ∙ ap (keep_if (touches conn engine keys t k)) (shards (shard_of e))
          ∙ of_shard fs t k e hit

  -- Two nodes, over an engine whose statements act on the rows by key, start with the same rows. If
  -- they replay events, in any interleaving of the shards, that are the same and in the same order
  -- in each shard, and events about one key are in one shard, then they end with the same rows,
  -- however often a Replicate fails and is tried again.
  pub replicas_converge :
      (es fs : List ChangeLogEvent) (a a' b b' : D)
      → ((shard : ℕ) → keep_if (in_shard shard) es ≡ keep_if (in_shard shard) fs)
      → ((t : String) (k : K) → keys.row_at t k a ≡ keys.row_at t k b)
      → Replayed conn engine es a a'
      → Replayed conn engine fs b b'
      → (t : String) (k : K) → keys.row_at t k a' ≡ keys.row_at t k b'
  replicas_converge es fs a a' b b' shards start run_a run_b t k =
      rw
        (
          row_of_last conn engine keys es a a' t k run_a,
          row_of_last conn engine keys fs b b' t k run_b,
          same_for_key es fs shards t k,
          start t k,
        )
        refl

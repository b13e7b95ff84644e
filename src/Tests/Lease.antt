-- ===== src/Tests/Lease.antt =====
-- The listed result on the lease of logstream/, with a store that keeps the history of the key.
use marmot.Base.{
  ℕ, ◌+◌, ◌<◌, ◌≡◌, ◌≢◌, ◌⊎◌, inl, inr, refl, arith, List, [], ◌∷◌, nat_beq, nat_beq_iff,
  if◌then◌else◌, Bool-cases,
}
use mathlib.Core.Path.{subst}
use marmot.Base.Errors.{Result, ok, err, library, sentinel, key_not_found}
use marmot.LogStream.Replicator.{Bytes}
use marmot.LogStream.Lease.{LockInfo, LockCodec, Entry, KeyValue, Attempt, inspect, finish}
use marmot.LogStream.Lease.Laws.{HasHistory}
use marmot.LogStream.Lease.Exclusive.{
  Run, stay, next, begins, finishes, Exclusive, leases-Exclusive,
}

deserialize : Bytes → Result LockInfo
deserialize (node ∷ time ∷ rest) = ok (record { node_id = node; timestamp = time })
deserialize _ = err (library "unexpected end of file")

ok_inj : {A : Type 0} {x y : A} → ok x ≡ ok y → x ≡ y
ok_inj h = ground arith

deserialize-two :
    (info : LockInfo) (bytes : Bytes)
    → ok (info.node_id ∷ info.timestamp ∷ []) ≡ ok bytes
    → deserialize bytes ≡ ok info
unfolding deserialize
deserialize-two info bytes h = subst (λ bytes. deserialize bytes ≡ ok info) (ok_inj h) refl

abbrev two_numbers : LockCodec
two_numbers = record {
  serialize = λ info. ok (info.node_id ∷ info.timestamp ∷ []);
  deserialize_from = deserialize;
  deserialize-serialize = deserialize-two;
}

get : List Entry → Result Entry
get [] = err (sentinel key_not_found)
get (e ∷ es) = ok e

create : Bytes → List Entry → Result ℕ × List Entry
create bytes [] = (ok 1, record { value = bytes; revision = 1 } ∷ [])
create bytes (e ∷ es) = (err (library "key exists"), e ∷ es)

update : Bytes → ℕ → List Entry → Result ℕ × List Entry
update bytes rev [] = (err (library "wrong last sequence"), [])
update bytes rev (e ∷ es) =
    if nat_beq e.revision rev
    then (ok (rev + 1), record { value = bytes; revision = rev + 1 } ∷ e ∷ es)
    else (err (library "wrong last sequence"), e ∷ es)

abbrev store : KeyValue (List Entry)
store = record {
  get = λ name w. get w;
  create = λ name bytes w. create bytes w;
  update = λ name bytes rev w. update bytes rev w;
}

got : (w : List Entry) (e : Entry) → get w ≡ ok e → (rest : List Entry) × (w ≡ e ∷ rest)
unfolding get
got [] e h = absurd (ground arith)
got (x ∷ es) e h = (es, ground arith)

created :
    (w : List Entry) (bytes : Bytes)
    → (((create bytes w).1 ≡ w) × ((n : ℕ) → (create bytes w).0 ≢ ok n))
      ⊎ ((n : ℕ) × (w ≡ []) × ((create bytes w).1 ≡ record { value = bytes; revision = n } ∷ []))
unfolding create
created [] bytes = inr (1, refl, refl)
created (e ∷ es) bytes = inl (refl, λ n h. ground arith)

updated :
    (w : List Entry) (bytes : Bytes) (rev : ℕ)
    → (((update bytes rev w).1 ≡ w) × ((n : ℕ) → (update bytes rev w).0 ≢ ok n))
      ⊎ ((e : Entry) × (rest : List Entry) × (n : ℕ) × (w ≡ e ∷ rest)
          × (e.revision ≡ rev)
          × (rev < n)
          × ((update bytes rev w).1 ≡ record { value = bytes; revision = n } ∷ e ∷ rest))
unfolding update
updated [] bytes rev = inl (refl, λ n h. ground arith)
updated (e ∷ es) bytes rev = elim (Bool-cases (nat_beq e.revision rev)) [
  | inl same ↦
      inr (e, es, rev + 1, refl, (nat_beq_iff e.revision rev).0 same, omega arith, ground arith)
  | inr other ↦ inl (ground arith, λ n h. ground arith)
]

abbrev store-HasHistory : HasHistory store "snapshot"
store-HasHistory = record { history = λ w. w; got = got; created = created; updated = updated }

-- What two nodes do that both find no lease: the second `Create` is refused.
abbrev first : Attempt
first = inspect two_numbers store "snapshot" 10000 1 50 []

abbrev second : Attempt
second = inspect two_numbers store "snapshot" 10000 2 60 []

abbrev after_first : List Entry
after_first = (finish two_numbers store "snapshot" 10000 first []).1

abbrev after_both : List Entry
after_both = (finish two_numbers store "snapshot" 10000 second after_first).1

race :
    Run two_numbers store "snapshot" 10000 store-HasHistory
      (record { world = []; attempts = [] })
      (record { world = after_both; attempts = [] })
race =
    next _ _ _
      (next _ _ _
        (next _ _ _ (next _ _ _ (stay _) (begins 1 50 [] [])) (begins 2 60 [] (first ∷ [])))
        (finishes first [] (second ∷ []) []))
      (finishes second after_first [] [])

leases-Exclusive_example : Exclusive two_numbers store "snapshot" 10000 store-HasHistory after_both
leases-Exclusive_example =
    leases-Exclusive two_numbers store "snapshot" 10000 store-HasHistory []
      (record { world = after_both; attempts = [] }) refl race

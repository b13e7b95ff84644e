-- ===== src/Db/ChangeLog/Queue.antt =====
-- The order of `getGlobalChanges` of db/change_log.go, as a queue: what stays in the global log when its
-- first entries leave it.
use marmot.Base.{
  length, All-both, ◌-◌, ℕ, zero, suc, ◌≡◌, refl, ap, ◌∙◌, arith, inl, inr, true, false, Bool, not,
  List, [], ◌∷◌, if◌then◌else◌, nat_beq, leb, Bool-cases, All, Pairwise, All-map, All-keep_if,
  keep_if, take, drop, nat_key,
}
use marmot.Db.Store.{SqliteStreamDb, GlobalChangeLogEntry}
use marmot.Db.ChangeLog.{insert_by_id, order_by_id}
use marmot.Db.ChangeLog.Order.{All-insert_by_id}
use marmot.Db.ChangeLog.Events.{without}

abbrev Entry : Type 0
Entry = GlobalChangeLogEntry

abbrev NotAbove : Entry → Entry → Type 0
NotAbove a b = leb a.id b.id ≡ true

abbrev IsSorted : List Entry → Type 0
IsSorted = Pairwise NotAbove

insert_by_id-IsSorted : (g : Entry) (gs : List Entry) → IsSorted gs → IsSorted (insert_by_id g gs)
unfolding insert_by_id
insert_by_id-IsSorted g [] h = (tt, tt)
insert_by_id-IsSorted g (x ∷ xs) h = elim (Bool-cases (leb g.id x.id)) [
  | inl e ↦ rw e ((e, All-map (NotAbove x) (NotAbove g) xs (λ y le. ground arith) h.0), h)
  | inr e ↦
      rw e (All-insert_by_id (NotAbove x) g xs (ground arith) h.0, insert_by_id-IsSorted g xs h.1)
]

order_by_id-IsSorted : (gs : List Entry) → IsSorted (order_by_id gs)
unfolding order_by_id
order_by_id-IsSorted [] = tt
order_by_id-IsSorted (g ∷ gs) = insert_by_id-IsSorted g (order_by_id gs) (order_by_id-IsSorted gs)

insert_by_id_first :
    (g : Entry) (gs : List Entry) → All (NotAbove g) gs → insert_by_id g gs ≡ g ∷ gs
unfolding insert_by_id
insert_by_id_first g [] h = refl
insert_by_id_first g (x ∷ xs) h = rw (h.0) refl

-- A filter and the sort can change places.
keep_if-insert_by_id :
    (p : Entry → Bool) (g : Entry) (gs : List Entry)
    → IsSorted gs
    → keep_if p (insert_by_id g gs) ≡ (if p g then insert_by_id g (keep_if p gs) else keep_if p gs)
unfolding insert_by_id
keep_if-insert_by_id p g [] h = refl
keep_if-insert_by_id p g (x ∷ xs) h = elim (Bool-cases (leb g.id x.id)) [
  | inl e ↦
      let below : All (NotAbove g) (keep_if p (x ∷ xs)) =
        All-keep_if (NotAbove g) (NotAbove g) p (x ∷ xs) (λ y _ le. le)
          (e, All-map (NotAbove x) (NotAbove g) xs (λ y le. ground arith) h.0) in
      rw (e, insert_by_id_first g (keep_if p (x ∷ xs)) below) refl
  | inr e ↦
      rw (e, keep_if-insert_by_id p g xs h.1)
        (elim (Bool-cases (p x)) [
          | inl passes ↦ elim (Bool-cases (p g)) [
            | inl kept ↦ rw (passes, kept, e) refl
            | inr gone ↦ rw (passes, gone) refl
          ]
          | inr fails ↦ rw fails refl
        ])
]

order_by_id-keep_if :
    (p : Entry → Bool) (gs : List Entry) → order_by_id (keep_if p gs) ≡ keep_if p (order_by_id gs)
unfolding order_by_id
order_by_id-keep_if p [] = refl
order_by_id-keep_if p (g ∷ gs) =
    rw (keep_if-insert_by_id p g (order_by_id gs) (order_by_id-IsSorted gs))
      (elim (Bool-cases (p g)) [
        | inl kept ↦ rw kept (ap (insert_by_id g) (order_by_id-keep_if p gs))
        | inr gone ↦ rw gone (order_by_id-keep_if p gs)
      ])

abbrev Differ : Entry → Entry → Type 0
Differ a b = nat_beq a.id b.id ≡ false

abbrev other_than : Entry → Entry → Bool
other_than c g = not (nat_beq g.id c.id)

keep_if_others : (c : Entry) (gs : List Entry) → All (Differ c) gs → keep_if (other_than c) gs ≡ gs
keep_if_others c [] h = refl
keep_if_others c (x ∷ xs) h =
    let apart : nat_beq x.id c.id ≡ false = let here = h.0 in ground arith in
    rw (apart, keep_if_others c xs h.1) refl

module _ {W : Type 0} (conn : SqliteStreamDb W) where
  order_by_id-without :
      (gs cs : List Entry) → order_by_id (without conn gs cs) ≡ without conn (order_by_id gs) cs
  order_by_id-without gs [] = refl
  order_by_id-without gs (c ∷ cs) =
      order_by_id-without (keep_if (other_than c) gs) cs
      ∙ ap (λ xs. without conn xs cs) (order_by_id-keep_if (other_than c) gs)

  without_first :
      (n : ℕ) (gs : List Entry) → Pairwise Differ gs → without conn gs (take n gs) ≡ drop n gs
  without_first zero gs h = refl
  without_first (suc n) [] h = refl
  without_first (suc n) (x ∷ xs) h =
      let itself : nat_beq x.id x.id ≡ true = ground arith in
      let left : keep_if (other_than x) (x ∷ xs) ≡ xs = rw itself (keep_if_others x xs h.0) in
      ap (λ (ys : List Entry). without conn ys (take n xs)) left ∙ without_first n xs h.1

  -- When the first entries by id leave the global log, the queue is the rest of them.
  pub order_by_id-rest :
      (n : ℕ) (gs : List Entry)
      → Pairwise Differ (order_by_id gs)
      → order_by_id (without conn gs (take n (order_by_id gs))) ≡ drop n (order_by_id gs)
  order_by_id-rest n gs h =
      order_by_id-without gs (take n (order_by_id gs)) ∙ without_first n (order_by_id gs) h

All-drop : (P : Entry → Type 0) (n : ℕ) (gs : List Entry) → All P gs → All P (drop n gs)
All-drop P zero gs h = h
All-drop P (suc n) [] h = tt
All-drop P (suc n) (x ∷ xs) h = All-drop P n xs h.1

-- What holds of every two holds of one taken and one left.
pub drop-take_apart :
    (R : Entry → Entry → Type 0) (n : ℕ) (gs : List Entry)
    → Pairwise R gs
    → All (λ d. All (λ c. R c d) (take n gs)) (drop n gs)
drop-take_apart R zero gs h = nothing_taken gs
  where
    nothing_taken : (xs : List Entry) → All (λ d. All (λ c. R c d) []) xs
    nothing_taken [] = tt
    nothing_taken (x ∷ xs) = (tt, nothing_taken xs)
drop-take_apart R (suc n) [] h = tt
drop-take_apart R (suc n) (x ∷ xs) h =
    All-both (R x) (λ d. All (λ c. R c d) (take n xs)) (λ d. R x d × All (λ c. R c d) (take n xs))
      (drop n xs) (λ d r rs. (r, rs)) (All-drop (R x) n xs h.0) (drop-take_apart R n xs h.1)

length-insert_by_id : (g : Entry) (gs : List Entry) → length (insert_by_id g gs) ≡ suc (length gs)
unfolding insert_by_id
length-insert_by_id g [] = refl
length-insert_by_id g (x ∷ xs) = elim (Bool-cases (leb g.id x.id)) [
  | inl e ↦ rw e refl
  | inr e ↦ rw e (ap suc (length-insert_by_id g xs))
]

pub length-order_by_id : (gs : List Entry) → length (order_by_id gs) ≡ length gs
unfolding order_by_id
length-order_by_id [] = refl
length-order_by_id (g ∷ gs) =
    length-insert_by_id g (order_by_id gs) ∙ ap suc (length-order_by_id gs)

pub length-drop : (n : ℕ) (gs : List Entry) → length (drop n gs) ≡ length gs - n
length-drop zero gs = ground arith
length-drop (suc n) [] = ground arith
length-drop (suc n) (x ∷ xs) = length-drop n xs ∙ omega arith

-- ===== src/Db/ChangeLog/Order.antt =====
-- What holds of all entries, or of every two, holds after the sort of db/change_log.go.
use marmot.Base.{List, [], ◌∷◌, leb, Bool-cases, inl, inr, All, Pairwise}
use marmot.Db.Store.{GlobalChangeLogEntry}
use marmot.Db.ChangeLog.{insert_by_id, order_by_id}

abbrev Entry : Type 0
Entry = GlobalChangeLogEntry

pub All-insert_by_id {κ} :
    (P : Entry → Type κ) (g : Entry) (gs : List Entry) → P g → All P gs → All P (insert_by_id g gs)
unfolding insert_by_id
All-insert_by_id P g [] hg h = (hg, tt)
All-insert_by_id P g (x ∷ xs) hg h = elim (Bool-cases (leb g.id x.id)) [
  | inl e ↦ rw e (hg, h)
  | inr e ↦ rw e (h.0, All-insert_by_id P g xs hg h.1)
]

pub All-order_by_id {κ} : (P : Entry → Type κ) (gs : List Entry) → All P gs → All P (order_by_id gs)
unfolding order_by_id
All-order_by_id P [] h = tt
All-order_by_id P (g ∷ gs) h = All-insert_by_id P g (order_by_id gs) h.0 (All-order_by_id P gs h.1)

Pairwise-insert_by_id {κ} :
    (R : Entry → Entry → Type κ) (sym : (a b : Entry) → R a b → R b a) (g : Entry) (gs : List Entry)
    → All (R g) gs
    → Pairwise R gs
    → Pairwise R (insert_by_id g gs)
unfolding insert_by_id
Pairwise-insert_by_id R sym g [] hg h = (tt, tt)
Pairwise-insert_by_id R sym g (x ∷ xs) hg h = elim (Bool-cases (leb g.id x.id)) [
  | inl e ↦ rw e (hg, h)
  | inr e ↦
      rw e
        (All-insert_by_id (R x) g xs (sym g x hg.0) h.0, Pairwise-insert_by_id R sym g xs hg.1 h.1)
]

pub Pairwise-order_by_id {κ} :
    (R : Entry → Entry → Type κ)
    → ((a b : Entry) → R a b → R b a)
    → (gs : List Entry) → Pairwise R gs
    → Pairwise R (order_by_id gs)
unfolding order_by_id
Pairwise-order_by_id R sym [] h = tt
Pairwise-order_by_id R sym (g ∷ gs) h =
    Pairwise-insert_by_id R sym g (order_by_id gs) (All-order_by_id (R g) gs h.0)
      (Pairwise-order_by_id R sym gs h.1)

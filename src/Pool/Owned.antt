-- ===== src/Pool/Owned.antt =====
-- The invariant of the pool of pool/connection_pool.go, while clients borrow from it and return what they
-- have borrowed.
use marmot.Base.{
  ℕ, suc, ◌+◌, ◌≡◌, refl, sym, ap, ◌∙◌, ◌⊎◌, inl, inr, arith, true, Option, none, some, List, [],
  ◌∷◌, ◌++◌, length, length-append, nat_beq, nat_key, All, All-map, Bool-cases, Option-cases, ltb,
  if◌then◌else◌,
}
use mathlib.Core.Path.{subst}
use marmot.Base.Maps.{Map, insert, lookup-insert}
use marmot.Base.Errors.{Error, Result, ok, err, panic}
use marmot.Pool.{
  SqliteConnection, SqlitePool, object_at, init, send, send_new, after_init, borrow_from, borrow,
  is_disposer, sent, dispose,
}

-- The pool, and the connections that clients hold.
pub record Sharing : Type 0 where
  pub pool : SqlitePool
  pub held : List ℕ

pub data Step : Sharing → Sharing → Type 0 where
  borrowed :
      (opening : Option Error) (p q : SqlitePool) (i : ℕ) (held : List ℕ)
      → borrow opening p ≡ some (ok i, q)
      → Step (record { pool = p; held = held }) (record { pool = q; held = i ∷ held })
  refused :
      (opening : Option Error) (p q : SqlitePool) (e : Error) (held : List ℕ)
      → borrow opening p ≡ some (err e, q)
      → Step (record { pool = p; held = held }) (record { pool = q; held = held })
  returned :
      (p q : SqlitePool) (i : ℕ) (before behind : List ℕ)
      → dispose i p ≡ some (ok tt, q)
      → Step
          (record { pool = p; held = before ++ i ∷ behind })
          (record { pool = q; held = before ++ behind })

pub data Run : Sharing → Sharing → Type 0 where
  stay : (s : Sharing) → Run s s
  then_step : (s t u : Sharing) → Run s t → Step t u → Run s u

-- Connections are in the channel or held, opened ones are of this pool, and held ones are opened.
pub record Owned (pool : SqlitePool) (held : List ℕ) : Type 0 where
  pub count : length pool.connections + length held ≡ pool.size
  pub of_pool :
      (i : ℕ)
      → (object_at pool.objects i).opened ≡ true
      → (object_at pool.objects i).disposer ≡ some pool.number
  pub opened : All (λ i. (object_at pool.objects i).opened ≡ true) held

abbrev pub IsOwned : Sharing → Type 0
IsOwned s = Owned s.pool s.held

pub object_at-insert :
    (objects : Map ℕ SqliteConnection) (i j : ℕ) (c : SqliteConnection)
    → object_at (insert i c objects) j ≡ (if nat_beq i j then c else object_at objects j)
object_at-insert objects i j c = ground (arith, lookup-insert i j c objects)

pub init-cases :
    (opening : Option Error) (pool : ℕ) (c : SqliteConnection)
    → ((init opening pool c ≡ (none, c)) × (c.opened ≡ true))
      ⊎ (init opening pool c ≡ (none, record { opened = true; disposer = some pool }))
      ⊎ ((e : Error) × (init opening pool c ≡ (some e, c)))
unfolding init
init-cases opening pool c = elim (Bool-cases c.opened) [
  | inl e ↦ inl (ground arith, e)
  | inr e ↦ elim (Option-cases opening) [
    | inl none_there ↦ inr (inl (ground arith))
    | inr (x, fails) ↦ inr (inr (x, ground arith))
  ]
]

-- What a borrow may leave.
abbrev Borrowed : List ℕ → Option (Result ℕ × SqlitePool) → Type 0
Borrowed held none = Unit {0}
Borrowed held (some (ok i, q)) = Owned q (i ∷ held)
Borrowed held (some (err e, q)) = Owned q held
Borrowed held (some (panic m, q)) = Unit {0}

opened-Owned :
    (p : SqlitePool) (i : ℕ) (rest held : List ℕ) (c : SqliteConnection)
    → p.connections ≡ i ∷ rest
    → c.opened ≡ true
    → c.disposer ≡ some p.number
    → Owned p held
    → Owned (record p { connections = rest; objects = insert i c p.objects }) (i ∷ held)
opened-Owned p i rest held c taken is_open mine o =
    let size : length rest + suc (length held) ≡ p.size =
      omega (arith, ap (length {A = ℕ}) taken, o.count) in
    record {
      count = size;
      of_pool = λ j h. ground (arith, object_at-insert p.objects i j c, o.of_pool j);
      opened = (
        ground (arith, object_at-insert p.objects i i c),
        All-map _ _ held (λ j h. ground (arith, object_at-insert p.objects i j c)) o.opened,
      );
    }

refused-Owned :
    (p : SqlitePool) (i : ℕ) (rest held : List ℕ) (e : Error)
    → p.connections ≡ i ∷ rest
    → Owned p held
    → Borrowed held (send_new e (send p.next (record p { connections = rest; next = suc p.next })))
unfolding send send_new
refused-Owned p i rest held e taken o =
    let size : length rest + 1 + length held ≡ p.size =
      omega (arith, ap (length {A = ℕ}) taken, o.count) in
    let room : ltb (length rest) p.size ≡ true = ground arith in
    rw room (record {
      count = omega (arith, length-append rest (p.next ∷ []));
      of_pool = o.of_pool;
      opened = o.opened;
    })

borrow_from-Borrowed :
    (opening : Option Error) (p : SqlitePool) (held connections : List ℕ)
    → Owned p held
    → p.connections ≡ connections
    → Borrowed held (borrow_from connections opening p)
unfolding borrow_from after_init
borrow_from-Borrowed opening p held [] o taken = tt
borrow_from-Borrowed opening p held (i ∷ rest) o taken =
    elim (init-cases opening p.number (object_at p.objects i)) [
      | inl (e, is_open) ↦
          rw e (
            opened-Owned p i rest held (object_at p.objects i) taken is_open (o.of_pool i is_open)
              o)
      | inr (inl e) ↦ rw e (opened-Owned p i rest held _ taken refl refl o)
      | inr (inr (x, e)) ↦ rw e (refused-Owned p i rest held x taken o)
    ]

borrow-Borrowed :
    (opening : Option Error) (p : SqlitePool) (held : List ℕ)
    → Owned p held
    → Borrowed held (borrow opening p)
unfolding borrow
borrow-Borrowed opening p held o = borrow_from-Borrowed opening p held p.connections o refl

-- The held connections without one of them.
split_held :
    (P : ℕ → Type 0) (before : List ℕ) (i : ℕ) (behind : List ℕ)
    → All P (before ++ i ∷ behind)
    → P i × All P (before ++ behind)
split_held P [] i behind h = h
split_held P (j ∷ before) i behind h =
    let (here, others) = split_held P before i behind h.1 in (here, (h.0, others))

-- A held connection is taken back, and there is room for it.
pub dispose-held :
    (p : SqlitePool) (i : ℕ) (before behind : List ℕ)
    → Owned p (before ++ i ∷ behind)
    → (dispose i p ≡ some (ok tt, record p { connections = p.connections ++ i ∷ [] }))
      × Owned (record p { connections = p.connections ++ i ∷ [] }) (before ++ behind)
unfolding dispose is_disposer send sent
dispose-held p i before behind o =
    let (is_open, others) = split_held _ before i behind o.opened in
    let mine = o.of_pool i is_open in
    let before_it = length-append before (i ∷ behind) in
    let without_it = length-append before behind in
    let room : ltb (length p.connections) p.size ≡ true = let full = o.count in ground arith in
    (
      ground arith,
      record {
        count = omega (arith, o.count, length-append p.connections (i ∷ []));
        of_pool = o.of_pool;
        opened = others;
      },
    )

same_pool :
    {a b : SqlitePool}
    → ◌≡◌ {A = Option (Result (Unit {0}) × SqlitePool)} (some (ok tt, a)) (some (ok tt, b))
    → a ≡ b
same_pool h = ground arith

pub ok_inj : {A : Type 0} {x y : A} → ok x ≡ ok y → x ≡ y
ok_inj h = ground arith

Step-Owned : (s t : Sharing) → Step s t → IsOwned s → IsOwned t
Step-Owned _ _ (borrowed opening p q i held h) o = rw h at (borrow-Borrowed opening p held o)
Step-Owned _ _ (refused opening p q e held h) o = rw h at (borrow-Borrowed opening p held o)
Step-Owned _ _ (returned p q i before behind h) o =
    let (taken_back, kept) = dispose-held p i before behind o in
    subst (λ r. Owned r (before ++ behind)) (same_pool (sym taken_back ∙ h)) kept

pub Run-Owned : (s t : Sharing) → Run s t → IsOwned s → IsOwned t
Run-Owned _ _ (stay s) o = o
Run-Owned _ _ (then_step s t u run step) o = Step-Owned t u step (Run-Owned s t run o)

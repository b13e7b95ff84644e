-- ===== src/Pool/Shared.antt =====
-- What clients that share the pool of pool/connection_pool.go can rely on.
use marmot.Base.{
  ℕ, zero, suc, ◌+◌, ◌≡◌, ◌≢◌, ◌↔◌, refl, ap, ◌⊎◌, inl, inr, arith, Bool, true, false, Option, none,
  some, List, [], ◌∷◌, ◌++◌, length, length-append, nat_key, ltb,
}
use mathlib.Core.Path.{subst}
use marmot.Base.Maps.{lookup}
use marmot.Base.Errors.{Error, ok}
use marmot.Pool.{
  SqliteConnection, SqlitePool, object_at, send, send_new, after_init, borrow_from, borrow, dispose,
  made, fill, new_connection, new_sqlite_pool,
}
use marmot.Pool.Owned.{
  Sharing, Run, Owned, object_at-insert, init-cases, dispose-held, ok_inj, Run-Owned,
}

-- A pool that is not empty gives a connection, or the error of opening one.
borrow_from-ne-none :
    (opening : Option Error) (p : SqlitePool) (i : ℕ) (rest held : List ℕ)
    → Owned p held
    → p.connections ≡ i ∷ rest
    → borrow_from (i ∷ rest) opening p ≢ none
unfolding borrow_from after_init send_new send
borrow_from-ne-none opening p i rest held o taken h =
    let size : suc (length rest) + length held ≡ p.size =
      omega (arith, ap (length {A = ℕ}) taken, o.count) in
    let room : ltb (length rest) p.size ≡ true = ground arith in
    elim (init-cases opening p.number (object_at p.objects i)) [
      | inl (e, is_open) ↦ let got = rw e at (h) in absurd (ground arith)
      | inr (inl e) ↦ let got = rw e at (h) in absurd (ground arith)
      | inr (inr (x, e)) ↦ let got = rw (e, room) at (h) in absurd (ground arith)
    ]

borrow_blocks :
    (opening : Option Error) (p : SqlitePool) (held connections : List ℕ)
    → Owned p held
    → p.connections ≡ connections
    → (borrow_from connections opening p ≡ none) ↔ (length held ≡ p.size)
unfolding borrow_from
borrow_blocks opening p held [] o taken =
    let counted = o.count in
    let none_left = ap (length {A = ℕ}) taken in (λ _. omega arith, λ _. refl)
borrow_blocks opening p held (i ∷ rest) o taken =
    let counted = o.count in
    let some_left = ap (length {A = ℕ}) taken in
    (λ h. absurd (borrow_from-ne-none opening p i rest held o taken h), λ h. absurd (omega arith))

made-cases :
    (lazy : Bool) (opening : Option Error) (pool : ℕ)
    → ((c : SqliteConnection) × (made lazy opening pool ≡ (none, c))
        × (c.opened ≡ true → c.disposer ≡ some pool))
      ⊎ ((e : Error) × (c : SqliteConnection) × (made lazy opening pool ≡ (some e, c)))
unfolding made
made-cases true opening pool = inl (new_connection, refl, λ h. absurd (ground arith))
made-cases false opening pool = elim (init-cases opening pool new_connection) [
  | inl (e, is_open) ↦ absurd (ground arith)
  | inr (inl e) ↦ inl (_, e, λ _. refl)
  | inr (inr (x, e)) ↦ inr (x, _, e)
]

-- The loop that fills a new pool.
fill-Owned :
    (n : ℕ) (lazy : Bool) (opening : ℕ → Option Error) (p q : SqlitePool)
    → length p.connections + n ≡ p.size
    → ((i : ℕ)
        → (object_at p.objects i).opened ≡ true
        → (object_at p.objects i).disposer ≡ some p.number)
    → fill n lazy opening p ≡ ok q
    → Owned q [] × (q.size ≡ p.size)
unfolding fill
fill-Owned zero lazy opening p q count of_pool h =
    subst (λ r. Owned r [] × (r.size ≡ p.size)) (ok_inj h)
      (record { count = omega arith; of_pool = of_pool; opened = tt }, refl)
fill-Owned (suc n) lazy opening p q count of_pool h = elim (made-cases lazy (opening n) p.number) [
  | inr (x, c, e) ↦ let fails = rw (e, fill) at (h) in absurd (ground arith)
  | inl (c, e, mine) ↦
      fill-Owned n lazy opening _ q (omega (arith, length-append p.connections (p.next ∷ [])))
        (λ j is_open. ground (arith, object_at-insert p.objects p.next j c, of_pool j))
        (rw (e, fill) at (h))
]

-- From a new pool, however clients borrow, fail to borrow, and return what they hold: each held
-- connection is taken back at once, and a borrow blocks exactly while as many connections are held
-- as the pool has.
pub clients_share :
    (number size : ℕ) (lazy : Bool) (opening : ℕ → Option Error) (p : SqlitePool) (t : Sharing)
    → new_sqlite_pool number size lazy opening ≡ ok p
    → Run (record { pool = p; held = [] }) t
    → ((before : List ℕ) (i : ℕ) (behind : List ℕ)
        → t.held ≡ before ++ i ∷ behind
        → (q : SqlitePool) × (dispose i t.pool ≡ some (ok tt, q)))
      × ((opens : Option Error) → (borrow opens t.pool ≡ none) ↔ (length t.held ≡ t.pool.size))
unfolding new_sqlite_pool borrow lookup
clients_share number size lazy opening p t made_pool run =
    let (start, same) =
      fill-Owned size lazy opening _ p (omega arith) (λ i h. absurd (ground arith)) made_pool in
    let o = Run-Owned _ t run start in
    (
      λ before i behind e. (_, (dispose-held t.pool i before behind (subst (Owned t.pool) e o)).0),
      λ opens. borrow_blocks opens t.pool t.held t.pool.connections o refl,
    )

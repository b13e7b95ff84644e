-- ===== src/Tests/Pool.antt =====
-- The listed result on pool/, with a lazy pool of two connections.
use marmot.Base.{ℕ, ◌≡◌, ◌↔◌, refl, true, Option, none, some, List, [], ◌∷◌, ◌++◌, length, nat_key}
use marmot.Base.Maps.{lookup, insert}
use marmot.Base.Errors.{Error, ok, library}
use marmot.Pool.{SqlitePool, new_connection, new_sqlite_pool, borrow, dispose}
use marmot.Pool.Owned.{Sharing, Run, stay, then_step, borrowed, refused}
use marmot.Pool.Shared.{clients_share}

abbrev two : SqlitePool
two = record {
  number = 9;
  size = 2;
  connections = 0 ∷ 1 ∷ [];
  objects = (0, new_connection) ∷ (1, new_connection) ∷ [];
  next = 2;
}

abbrev one_left : SqlitePool
one_left = record two {
  connections = 1 ∷ [];
  objects = (0, record { opened = true; disposer = some 9 }) ∷ (1, new_connection) ∷ [];
}

-- The second connection does not open.
abbrev replaced : SqlitePool
replaced = record one_left { connections = 2 ∷ []; next = 3 }

abbrev sharing : Sharing
sharing = record { pool = replaced; held = 0 ∷ [] }

run : Run (record { pool = two; held = [] }) sharing
unfolding borrow lookup insert
run =
    then_step _ (record { pool = one_left; held = 0 ∷ [] }) _
      (then_step _ _ _ (stay _) (borrowed none two one_left 0 [] refl))
      (refused (some (library "no file")) one_left replaced (library "no file") (0 ∷ []) refl)

clients_share_example :
    ((before : List ℕ) (i : ℕ) (behind : List ℕ)
      → 0 ∷ [] ≡ before ++ i ∷ behind
      → (q : SqlitePool) × (dispose i replaced ≡ some (ok tt, q)))
    × ((opens : Option Error) → (borrow opens replaced ≡ none) ↔ (length {A = ℕ} (0 ∷ []) ≡ 2))
unfolding new_sqlite_pool insert
clients_share_example = clients_share 9 2 true (λ i. none) two sharing refl run

-- ===== src/Base/Maps.antt =====
-- Go's `map[K]V` as an association list: a key stands once, and a write replaces in place.
use mathlib.Core.Path.{◌≡◌, refl}
use mathlib.Core.Logic.{◌≢◌}
use mathlib.Core.Option.{Option, none, some}
use mathlib.Core.List.{List, [], ◌∷◌}
use native.Mathlib.Omega.{arith}
use marmot.Base.Tests.{Key, ◌==◌, if◌then◌else◌, same_refl}

abbrev pub Map {ℓ κ} : Type ℓ → Type κ → Type (ℓ ⊔ κ)
Map K V = List (K × V)

module _ {ℓ κ} {K : Type ℓ} {V : Type κ} ⦃e : Key K⦄ where
  unfoldable pub lookup : K → Map K V → Option V
  lookup k [] = none
  lookup k ((i, u) ∷ m) = if i == k then some u else lookup k m

  unfoldable pub insert : K → V → Map K V → Map K V
  insert k v [] = (k, v) ∷ []
  insert k v ((i, u) ∷ m) = if i == k then (k, v) ∷ m else (i, u) ∷ insert k v m

  pub lookup-insert :
      (k j : K) (v : V) (m : Map K V)
      → lookup j (insert k v m) ≡ (if k == j then some v else lookup j m)
  unfolding lookup insert
  lookup-insert k j v [] = refl
  lookup-insert k j v ((i, u) ∷ m) =
      ground (arith, e.same_iff k j, e.same_iff i k, e.same_iff i j, lookup-insert k j v m)

  pub lookup-insert_self : (k : K) (v : V) (m : Map K V) → lookup k (insert k v m) ≡ some v
  lookup-insert_self k v m = simp (lookup-insert, same_refl)

  pub insert_twice : (k : K) (u v : V) (m : Map K V) → insert k v (insert k u m) ≡ insert k v m
  unfolding insert
  insert_twice k u v [] = ground (arith, same_refl k)
  insert_twice k u v ((i, w) ∷ m) =
      ground (arith, insert_twice k u v m, e.same_iff i k, same_refl k)

  pub lookup-insert_other :
      (k j : K) (v : V) (m : Map K V) → j ≢ k → lookup j (insert k v m) ≡ lookup j m
  lookup-insert_other k j v m ne = ground (arith, lookup-insert k j v m, e.same_iff k j, ne)

-- ===== src/Base/Act.antt =====
-- A function with a state: it returns or fails, and leaves a state either way. `deferred` is a
-- deferred call that cannot fail.
pub mod Keeps
use marmot.Base.Errors.{Error, Result, ok, err, panic}

abbrev pub Act : Type 0 → Type 0 → Type 0
Act S A = S → Result A × S

module _ {S : Type 0} where
  abbrev pub pure : {A : Type 0} → A → Act S A
  pure a s = (ok a, s)

  abbrev pub throw : {A : Type 0} → Error → Act S A
  throw e s = (err e, s)

  infixl 5 ◌>>=◌ ◌>>◌
  abbrev pub ◌>>=◌ : {A B : Type 0} → Act S A → (A → Act S B) → Act S B
  ◌>>=◌ m f s =
      let (r, s') = m s in elim r [ ok a ↦ f a s' | err e ↦ (err e, s') | panic x ↦ (panic x, s') ]

  abbrev pub ◌>>◌ : {B : Type 0} → Act S (Unit {0}) → Act S B → Act S B
  m >> k = m >>= λ _. k

  -- What follows an error: `on` gives an action for each.
  abbrev pub catch : {A : Type 0} → Act S A → (Error → Act S A) → Act S A
  catch m on s =
      let (r, s') = m s in elim r [ ok a ↦ (ok a, s') | err e ↦ on e s' | panic x ↦ (panic x, s') ]

  abbrev pub deferred : {A : Type 0} → Act S A → (S → S) → Act S A
  deferred m last s = let (r, s') = m s in (r, last s')

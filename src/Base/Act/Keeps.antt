-- ===== src/Base/Act/Keeps.antt =====
-- Actions that leave a view of the state as it was, however they end.
use mathlib.Core.Path.{◌≡◌, refl, ◌∙◌}
use mathlib.Core.Bool.{Bool, true, false}
use marmot.Base.Tests.{if◌then◌else◌}
use marmot.Base.Errors.{Error, Result, ok, err, panic}
use marmot.Base.Act.{Act, throw, pure, ◌>>=◌, ◌>>◌}

module _ {S V : Type 0} (view : S → V) where
  abbrev pub Keeps : {A : Type 0} → Act S A → Type 0
  Keeps m = (s : S) → view (m s).1 ≡ view s

  pub pure-Keeps : {A : Type 0} (a : A) → Keeps (pure a)
  pure-Keeps a s = refl

  pub throw-Keeps : (A : Type 0) (e : Error) → Keeps (throw {A = A} e)
  throw-Keeps A e s = refl

  pub if-Keeps :
      {A : Type 0} (b : Bool) (m n : Act S A) → Keeps m → Keeps n → Keeps (if b then m else n)
  if-Keeps true m n km kn = km
  if-Keeps false m n km kn = kn

  bound :
      {A B : Type 0} (x : Result A × S) (f : A → Act S B) (s : S)
      → ((a : A) → Keeps (f a))
      → view (((λ _. x) >>= f) s).1 ≡ view x.1
  bound (ok a, t) f s keeps = keeps a t
  bound (err e, t) f s keeps = refl
  bound (panic m, t) f s keeps = refl

  pub bind-Keeps :
      {A B : Type 0} (m : Act S A) (f : A → Act S B)
      → Keeps m
      → ((a : A) → Keeps (f a))
      → Keeps (m >>= f)
  bind-Keeps m f first next s = bound (m s) f s next ∙ first s

  pub then-Keeps :
      {B : Type 0} (m : Act S (Unit {0})) (k : Act S B) → Keeps m → Keeps k → Keeps (m >> k)
  then-Keeps m k first next = bind-Keeps m (λ _. k) first (λ _. next)

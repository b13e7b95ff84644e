-- ===== src/Base/Errors.antt =====
-- Go's `error` values and results. An error is a named variable of the program, an error of a
-- library, or one that wraps another; `==` compares the value, `errors.Is` unwraps.
use Prim.Native.Nat.{ℕ}
use Prim.Native.String.{String}
use mathlib.Core.Path.{◌≡◌, refl}
use mathlib.Core.Logic.{◌⊎◌, inl, inr}
use mathlib.Core.Bool.{Bool, false}
use marmot.Base.Tests.{nat_beq}

pub data Sentinel : Type 0 where
  no_table_mapping log_not_ready_to_publish end_of_watch : Sentinel
  not_initialized wrong_pool pending_snapshot : Sentinel
  invalid_storage_type no_snapshot_found required_parameter_missing : Sentinel
  canceled timeout key_not_found bucket_not_found stream_not_found object_not_found : Sentinel

abbrev pub code : Sentinel → ℕ
code no_table_mapping = 0
code log_not_ready_to_publish = 1
code end_of_watch = 2
code not_initialized = 3
code wrong_pool = 4
code pending_snapshot = 5
code invalid_storage_type = 6
code no_snapshot_found = 7
code required_parameter_missing = 8
code canceled = 9
code timeout = 10
code key_not_found = 11
code bucket_not_found = 12
code stream_not_found = 13
code object_not_found = 14

pub data Error : Type 0 where
  sentinel : Sentinel → Error
  library : String → Error
  wrap : String → Error → Error

-- `err == X`
abbrev pub is_value : Error → Sentinel → Bool
is_value (sentinel s) x = nat_beq (code s) (code x)
is_value (library m) x = false
is_value (wrap m e) x = false

-- `errors.Is(err, X)`
abbrev pub errors_is : Error → Sentinel → Bool
errors_is (sentinel s) x = nat_beq (code s) (code x)
errors_is (library m) x = false
errors_is (wrap m e) x = errors_is e x

pub data Result {ℓ} (A : Type ℓ) : Type ℓ where
  ok : A → Result A
  err : Error → Result A
  panic : String → Result A

infixl 5 ◌>>=◌ ◌>>◌
abbrev pub ◌>>=◌ {ℓ κ} : {A : Type ℓ} {B : Type κ} → Result A → (A → Result B) → Result B
ok a >>= f = f a
err e >>= f = err e
panic m >>= f = panic m

abbrev pub ◌>>◌ {ℓ} : {B : Type ℓ} → Result (Unit {0}) → Result B → Result B
m >> k = m >>= λ _. k

pub Result-cases {ℓ} :
    {A : Type ℓ} (r : Result A)
    → ((a : A) × (r ≡ ok a)) ⊎ ((e : Error) × (r ≡ err e)) ⊎ ((m : String) × (r ≡ panic m))
Result-cases (ok a) = inl (a, refl)
Result-cases (err e) = inr (inl (e, refl))
Result-cases (panic m) = inr (inr (m, refl))

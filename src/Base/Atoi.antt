-- ===== src/Base/Atoi.antt =====
-- Go's `strconv.Atoi` on a machine of 64 bits: a sign, and digits of ten; none is its error.
use Prim.Native.Nat.{ℕ, zero, suc, ◌+◌, ◌-◌, ◌*◌, ◌^◌}
use Prim.Native.Char.{code}
use Prim.Native.String.{String, [], ◌∷◌}
use mathlib.Core.Bool.{◌&&◌}
use mathlib.Core.Option.{Option, none, some}
use marmot.Base.Tests.{leb, ltb, nat_beq, if◌then◌else◌}
use marmot.Base.Int.{ℤ, pos, negsuc}

digits_from : String → ℕ → Option ℕ
digits_from [] n = some n
digits_from (c ∷ s) n =
    let rest = digits_from s (10 * n + (code c - 48)) in
    if leb 48 (code c) && leb (code c) 57 then rest else none

digits : String → Option ℕ
unfolding digits_from
digits [] = none
digits (c ∷ s) = digits_from (c ∷ s) 0

as_positive : Option ℕ → Option ℤ
as_positive none = none
as_positive (some n) = if ltb n (2 ^ 63) then some (pos n) else none

negated : ℕ → ℤ
negated zero = pos 0
negated (suc n) = negsuc n

as_negative : Option ℕ → Option ℤ
unfolding negated
as_negative none = none
as_negative (some n) = if leb n (2 ^ 63) then some (negated n) else none

unfoldable pub atoi : String → Option ℤ
unfolding digits as_positive as_negative
atoi [] = none
atoi (c ∷ s) =
    if nat_beq (code c) 45
    then as_negative (digits s)
    else if nat_beq (code c) 43
    then as_positive (digits s)
    else as_positive (digits (c ∷ s))

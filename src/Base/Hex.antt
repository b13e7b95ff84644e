-- ===== src/Base/Hex.antt =====
-- The verb `%x` of `fmt.Sprintf` at a number of 64 bits.
use Prim.Native.Nat.{ℕ, zero, suc, ◌+◌, ◌/◌, ◌%◌}
use Prim.Native.String.{String, ◌++◌, slice}
use marmot.Base.Tests.{ltb, if◌then◌else◌}

hex_digit : ℕ → String
hex_digit n = slice "0123456789abcdef" n (n + 1)

hex_digits : ℕ → ℕ → String
unfolding hex_digit
hex_digits zero n = ""
hex_digits (suc f) n =
    let rest = hex_digits f (n / 16) in if ltb n 16 then hex_digit n else rest ++ hex_digit (n % 16)

-- Sixteen digits are enough for 64 bits.
unfoldable pub hex : ℕ → String
unfolding hex_digits
hex n = hex_digits 16 n

-- ===== src/Base/Fnv.antt =====
-- `hash/fnv`, `New64`: the FNV-1 hash of a byte sequence, 64 bits wide.
use Prim.Native.Nat.{ℕ, ◌*◌, ◌%◌, ◌^◌, bit_xor}
use mathlib.Core.Path.{◌≡◌, refl}
use mathlib.Core.List.{List, [], ◌∷◌}

abbrev offset64 : ℕ
offset64 = 14695981039346656037

abbrev prime64 : ℕ
prime64 = 1099511628211

fnv_from : ℕ → List ℕ → ℕ
fnv_from h [] = h
fnv_from h (b ∷ bs) = fnv_from (bit_xor ((h * prime64) % 2 ^ 64) b) bs

unfoldable pub fnv64 : List ℕ → ℕ
unfolding fnv_from
fnv64 bs = fnv_from offset64 bs

-- The published test vector for the text "a".
fnv64_example : fnv64 (b'a' ∷ []) ≡ 0xaf63bd4c8601b7be
unfolding fnv64
fnv64_example = refl

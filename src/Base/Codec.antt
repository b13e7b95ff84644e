-- ===== src/Base/Codec.antt =====
-- A serialisation that the program takes from a library, as its operations and documented laws.
use Prim.Native.Nat.{ℕ, ◌<◌}
use mathlib.Core.Path.{◌≡◌}
use mathlib.Core.List.{List, ◌++◌}
use marmot.Base.Lists.{length}
use marmot.Base.Errors.{Result, ok}

-- The decoder reads one item from the front of a stream; what follows is not read.
pub record Codec (A : Type 0) : Type 0 where
  pub encode : A → List ℕ
  pub decode : List ℕ → Result A
  pub decode-encode : (a : A) (rest : List ℕ) → decode (encode a ++ rest) ≡ ok a
  pub encode_pos : (a : A) → 0 < length (encode a)

-- ===== src/Tests/SeqMapCodec.antt =====
-- An encoding of sequence maps, in place of the library's CBOR, that satisfies the laws asked of it.
use Prim.Native.Nat.{Ordering, compare}
use Prim.Native.Char.{Char, char, code, nul, IsLt, IsScalar}
use Prim.Native.String.{[] as nothing, ◌∷◌ as after}
use text.Mathlib.TextEquality.{Char-path}
use marmot.Base.{
  ℕ, zero, suc, ◌<◌, String, ◌≡◌, refl, ap, arith, Option, none, some, List, [], ◌∷◌, ◌++◌, length,
}
use marmot.Base.Errors.{Result, ok, err, panic, library}
use marmot.Base.Codec.{Codec}
use marmot.LogStream.State.{SeqMap}

abbrev BothLt : Ordering → Ordering → Type 0
BothLt Ordering.lt o = IsLt o
BothLt Ordering.eq _ = ⊥
BothLt Ordering.gt _ = ⊥

-- What `IsScalar` of a number is, by the three comparisons that it makes.
abbrev Scalar : Ordering → Ordering → Ordering → Type 0
Scalar Ordering.lt _ _ = Unit
Scalar Ordering.eq o p = BothLt o p
Scalar Ordering.gt o p = BothLt o p

is_less : (o : Ordering) → Option (IsLt o)
is_less Ordering.lt = some tt
is_less Ordering.eq = none
is_less Ordering.gt = none

both_less : (o p : Ordering) → Option (BothLt o p)
both_less Ordering.lt p = is_less p
both_less Ordering.eq p = none
both_less Ordering.gt p = none

is_scalar : (o p q : Ordering) → Option (Scalar o p q)
is_scalar Ordering.lt p q = some tt
is_scalar Ordering.eq p q = both_less p q
is_scalar Ordering.gt p q = both_less p q

character_if : (n : ℕ) → Option (IsScalar n) → Char
character_if n none = nul
character_if n (some p) = char n p

character : ℕ → Char
unfolding character_if
character n = character_if n (is_scalar (compare n 55296) (compare 57343 n) (compare n 1114112))

is_less-some : (o : Ordering) → IsLt o → (p : IsLt o) × (is_less o ≡ some p)
unfolding is_less
is_less-some Ordering.lt h = (tt, refl)
is_less-some Ordering.eq h = absurd h
is_less-some Ordering.gt h = absurd h

both_less-some : (o p : Ordering) → BothLt o p → (h : BothLt o p) × (both_less o p ≡ some h)
unfolding both_less
both_less-some Ordering.lt p h = is_less-some p h
both_less-some Ordering.eq p h = absurd h
both_less-some Ordering.gt p h = absurd h

is_scalar-some : (o p q : Ordering) → Scalar o p q → (h : Scalar o p q) × (is_scalar o p q ≡ some h)
unfolding is_scalar
is_scalar-some Ordering.lt p q h = (tt, refl)
is_scalar-some Ordering.eq p q h = both_less-some p q h
is_scalar-some Ordering.gt p q h = both_less-some p q h

-- A character is made again from its number.
character-code : (c : Char) → character (code c) ≡ c
unfolding character character_if
character-code (char n p) =
    let (h, e) = is_scalar-some (compare n 55296) (compare 57343 n) (compare n 1114112) p in
    Char-path _ _ (ap code (ap (character_if n) e))

-- A key's characters, each after a 1, then 0 and the number; 2 ends the map.
encode_entry : String → ℕ → List ℕ → List ℕ
encode_entry nothing n rest = 0 ∷ n ∷ rest
encode_entry (after c s) n rest = 1 ∷ code c ∷ encode_entry s n rest

pub encode : SeqMap → List ℕ
unfolding encode_entry
encode [] = 2 ∷ []
encode ((k, n) ∷ m) = encode_entry k n (encode m)

-- The character goes to the front of the first key.
add_char : Char → Result SeqMap → Result SeqMap
add_char c (ok ((k, n) ∷ m)) = ok ((after c k, n) ∷ m)
add_char c (ok []) = err (library "a character without a key")
add_char c (err e) = err e
add_char c (panic m) = panic m

add_entry : ℕ → Result SeqMap → Result SeqMap
add_entry n (ok m) = ok (("", n) ∷ m)
add_entry n (err e) = err e
add_entry n (panic m) = panic m

pub decode : List ℕ → Result SeqMap
unfolding add_char add_entry character
decode [] = err (library "end of file")
decode (zero ∷ []) = err (library "end of file")
decode (zero ∷ n ∷ rest) = add_entry n (decode rest)
decode (suc zero ∷ []) = err (library "end of file")
decode (suc zero ∷ n ∷ rest) = add_char (character n) (decode rest)
decode (suc (suc t) ∷ rest) = ok []

decode-encode_entry :
    (k : String) (n : ℕ) (rest tail : List ℕ) (m : SeqMap)
    → decode (rest ++ tail) ≡ ok m
    → decode (encode_entry k n rest ++ tail) ≡ ok ((k, n) ∷ m)
unfolding decode encode_entry add_char add_entry
decode-encode_entry nothing n rest tail m h = rw h refl
decode-encode_entry (after c s) n rest tail m h =
    rw (decode-encode_entry s n rest tail m h, character-code c) refl

pub decode-encode : (m : SeqMap) (tail : List ℕ) → decode (encode m ++ tail) ≡ ok m
unfolding decode encode
decode-encode [] tail = refl
decode-encode ((k, n) ∷ m) tail = decode-encode_entry k n (encode m) tail m (decode-encode m tail)

encode_entry_pos : (k : String) (n : ℕ) (rest : List ℕ) → 0 < length (encode_entry k n rest)
unfolding encode_entry
encode_entry_pos nothing n rest = omega arith
encode_entry_pos (after c s) n rest = omega arith

pub encode_pos : (m : SeqMap) → 0 < length (encode m)
unfolding encode
encode_pos [] = omega arith
encode_pos ((k, n) ∷ m) = encode_entry_pos k n (encode m)

abbrev pub seq_map_codec : Codec SeqMap
seq_map_codec = record {
  encode = encode;
  decode = decode;
  decode-encode = decode-encode;
  encode_pos = encode_pos;
}

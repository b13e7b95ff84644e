-- ===== src/Base/Decimal.antt =====
-- The verb `%d` of `fmt.Sprintf` at an unsigned integer: distinct numbers print apart.
use Prim.Native.Nat.{ℕ, zero, suc, ◌/◌, ◌%◌, ◌<◌}
use Prim.Native.String.{String, ◌++◌, count}
use mathlib.Core.Path.{◌≡◌, refl, sym, ap, ◌∙◌}
use mathlib.Core.Logic.{◌≢◌, ◌⊎◌, inl, inr}
use native.Mathlib.Omega.{arith}
use text.Mathlib.Text.{◌==◌}
use text.Mathlib.TextLemmas.{length-append, append_inj}
use marmot.Base.Tests.{ltb, if◌then◌else◌, Bool-cases}

digit : ℕ → String
digit zero = "0"
digit (suc zero) = "1"
digit (suc (suc zero)) = "2"
digit (suc (suc (suc zero))) = "3"
digit (suc (suc (suc (suc zero)))) = "4"
digit (suc (suc (suc (suc (suc zero))))) = "5"
digit (suc (suc (suc (suc (suc (suc zero)))))) = "6"
digit (suc (suc (suc (suc (suc (suc (suc zero))))))) = "7"
digit (suc (suc (suc (suc (suc (suc (suc (suc zero)))))))) = "8"
digit _ = "9"

digits : ℕ → ℕ → String
digits zero n = ""
digits (suc f) n =
    let rest = digits f (n / 10) in if ltb n 10 then digit n else rest ++ digit (n % 10)

unfoldable pub decimal : ℕ → String
unfolding digits digit
decimal n = digits (suc n) n

decimal_example : decimal 18446744073709551615 ≡ "18446744073709551615"
unfolding decimal
decimal_example = refl

undigit : String → ℕ
undigit s =
    if s == "0"
    then 0
    else if s == "1"
    then 1
    else if s == "2"
    then 2
    else if s == "3"
    then 3
    else if s == "4"
    then 4
    else if s == "5"
    then 5
    else if s == "6"
    then 6
    else if s == "7"
    then 7
    else if s == "8"
    then 8
    else 9

undigit-digit : (n : ℕ) → n < 10 → undigit (digit n) ≡ n
unfolding undigit digit
undigit-digit zero h = refl
undigit-digit (suc zero) h = refl
undigit-digit (suc (suc zero)) h = refl
undigit-digit (suc (suc (suc zero))) h = refl
undigit-digit (suc (suc (suc (suc zero)))) h = refl
undigit-digit (suc (suc (suc (suc (suc zero))))) h = refl
undigit-digit (suc (suc (suc (suc (suc (suc zero)))))) h = refl
undigit-digit (suc (suc (suc (suc (suc (suc (suc zero))))))) h = refl
undigit-digit (suc (suc (suc (suc (suc (suc (suc (suc zero)))))))) h = refl
undigit-digit (suc (suc (suc (suc (suc (suc (suc (suc (suc n))))))))) h = omega arith

count-digit : (n : ℕ) → count (digit n) ≡ 1
unfolding digit
count-digit zero = refl
count-digit (suc zero) = refl
count-digit (suc (suc zero)) = refl
count-digit (suc (suc (suc zero))) = refl
count-digit (suc (suc (suc (suc zero)))) = refl
count-digit (suc (suc (suc (suc (suc zero))))) = refl
count-digit (suc (suc (suc (suc (suc (suc zero)))))) = refl
count-digit (suc (suc (suc (suc (suc (suc (suc zero))))))) = refl
count-digit (suc (suc (suc (suc (suc (suc (suc (suc zero)))))))) = refl
count-digit _ = refl

count-digits_pos : (f n : ℕ) → n < f → 0 < count (digits f n)
unfolding digits
count-digits_pos zero n h = absurd (omega arith)
count-digits_pos (suc f) n h =
    ground (
      arith,
      count-digit n,
      count-digit (n % 10),
      length-append (digits f (n / 10)) (digit (n % 10)),
    )

digit_inj : (m n : ℕ) → m < 10 → n < 10 → digit m ≡ digit n → m ≡ n
digit_inj m n hm hn e = sym (undigit-digit m hm) ∙ ap undigit e ∙ undigit-digit n hn

-- The last digits agree, and so do the texts before them.
split_last :
    (s t : String) (c d : ℕ) → c < 10 → d < 10 → s ++ digit c ≡ t ++ digit d → (s ≡ t) × (c ≡ d)
split_last s t c d hc hd e =
    let counts : count s ≡ count t = omega (
      arith,
      ap count e,
      length-append s (digit c),
      length-append t (digit d),
      count-digit c,
      count-digit d,
    ) in
    let parts = append_inj e counts in (parts.0, digit_inj c d hc hd parts.1)

-- Either one digit, or a shorter numeral and the last digit.
digits-cases :
    (f n : ℕ)
    → ((n < 10) × (digits (suc f) n ≡ digit n))
      ⊎ ((9 < n) × (digits (suc f) n ≡ digits f (n / 10) ++ digit (n % 10)))
unfolding digits
digits-cases f n = elim (Bool-cases (ltb n 10)) [
  | inl e ↦ inl (ground arith, rw e)
  | inr e ↦ inr (ground arith, rw e)
]

one_digit-ne : (f m n : ℕ) → n / 10 < f → 9 < n → digit m ≢ digits f (n / 10) ++ digit (n % 10)
one_digit-ne f m n h big e = omega (
  arith,
  ap count e,
  count-digit m,
  count-digit (n % 10),
  count-digits_pos f (n / 10) h,
  length-append (digits f (n / 10)) (digit (n % 10)),
)

digits_inj : (f g m n : ℕ) → m < f → n < g → digits f m ≡ digits g n → m ≡ n
digits_inj zero g m n hm hn e = absurd (omega arith)
digits_inj (suc f) zero m n hm hn e = absurd (omega arith)
digits_inj (suc f) (suc g) m n hm hn e = elim (digits-cases f m) [
  | inl (lm, em) ↦ elim (digits-cases g n) [
    | inl (ln, en) ↦ digit_inj m n lm ln (sym em ∙ e ∙ en)
    | inr (bn, en) ↦ absurd (one_digit-ne g m n (omega arith) bn (sym em ∙ e ∙ en))
  ]
  | inr (bm, em) ↦ elim (digits-cases g n) [
    | inl (ln, en) ↦ absurd (one_digit-ne f n m (omega arith) bm (sym en ∙ sym e ∙ em))
    | inr (bn, en) ↦
        let parts =
          split_last (digits f (m / 10)) (digits g (n / 10)) (m % 10) (n % 10) (omega arith)
            (omega arith) (sym em ∙ e ∙ en) in
        let high = digits_inj f g (m / 10) (n / 10) (omega arith) (omega arith) parts.0 in
        let low = parts.1 in omega arith
  ]
]

pub decimal_inj : (m n : ℕ) → decimal m ≡ decimal n → m ≡ n
unfolding decimal
decimal_inj m n = digits_inj (suc m) (suc n) m n (omega arith) (omega arith)

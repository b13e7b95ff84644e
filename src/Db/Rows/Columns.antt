-- ===== src/Db/Rows/Columns.antt =====
-- What `fetchRow` of db/utils.go gives under the name of a column.
use text.Mathlib.Text.{◌==◌ as str_eq}
use marmot.Base.{
  if◌then◌else◌, ap, subst, String, ◌≡◌, refl, ◌∙◌, arith, inl, inr, false, Bool-cases, Option,
  none, some, List, [], ◌∷◌, All, eq_iff, Pairwise, string_key,
}
use marmot.Base.Maps.{lookup, insert, lookup-insert}
use marmot.Db.Event.{Row, Value}
use marmot.Db.Rows.{row_of_columns, fetch_row}
use marmot.Base.Errors.{ok}

-- The value in the place of the first column with the name.
abbrev value_at : String → List String → List Value → Option Value
value_at name [] vs = none
value_at name (c ∷ cs) [] = none
value_at name (c ∷ cs) (v ∷ vs) = if str_eq c name then some v else value_at name cs vs

lookup-row_other :
    (name : String) (cs : List String) (vs : List Value) (row : Row)
    → All (λ c. str_eq c name ≡ false) cs
    → lookup name (row_of_columns cs vs row) ≡ lookup name row
unfolding row_of_columns
lookup-row_other name [] vs row h = refl
lookup-row_other name (c ∷ cs) [] row h = refl
lookup-row_other name (c ∷ cs) (v ∷ vs) row h =
    lookup-row_other name cs vs (insert c v row) h.1
    ∙ (let here = h.0 in ground (arith, lookup-insert c name v row))

abbrev or_else : Option Value → Option Value → Option Value
or_else none other = other
or_else (some v) other = some v

lookup-row_of_columns :
    (name : String) (cs : List String) (vs : List Value) (row : Row)
    → Pairwise (λ a b. str_eq b a ≡ false) cs
    → lookup name (row_of_columns cs vs row) ≡ or_else (value_at name cs vs) (lookup name row)
unfolding row_of_columns
lookup-row_of_columns name [] vs row h = refl
lookup-row_of_columns name (c ∷ cs) [] row h = refl
lookup-row_of_columns name (c ∷ cs) (v ∷ vs) row h = elim (Bool-cases (str_eq c name)) [
  | inl e ↦
      let same : c ≡ name = (eq_iff c name).0 e in
      let others : All (λ d. str_eq d name ≡ false) cs =
        subst (λ n. All (λ d. str_eq d n ≡ false) cs) same h.0 in
      rw e (
        lookup-row_other name cs vs (insert c v row) others
        ∙ ground (arith, lookup-insert c name v row))
  | inr e ↦ rw e (
      lookup-row_of_columns name cs vs (insert c v row) h.1
      ∙ ap (or_else (value_at name cs vs)) (ground (arith, lookup-insert c name v row)))
]

-- With a name for each column, the row that fetchRow returns has under each name the value of that
-- column, and nothing under other names.
fetch_row_columns :
    (name : String) (cs : List String) (vs : List Value)
    → Pairwise (λ a b. str_eq b a ≡ false) cs
    → (row : Row) × (fetch_row (ok cs) (ok vs) ≡ ok row) × (lookup name row ≡ value_at name cs vs)
unfolding fetch_row lookup
fetch_row_columns name cs vs h = (
  row_of_columns cs vs [],
  refl,
  lookup-row_of_columns name cs vs [] h ∙ nothing_else (value_at name cs vs),
)
  where
    nothing_else : (v : Option Value) → or_else v none ≡ v
    nothing_else none = refl
    nothing_else (some v) = refl

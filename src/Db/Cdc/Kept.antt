-- ===== src/Db/Cdc/Kept.antt =====
-- Installing and removing change data capture changes nothing of the schema but what is Marmot's.
use Prim.Native.String.{◌++◌}
use text.Mathlib.Text.{◌==◌ as str_eq}
use marmot.Base.{
  String, ◌≡◌, refl, ap, ◌∙◌, arith, Bool, true, not, ◌||◌, inl, inr, Bool-cases, List, [], ◌∷◌,
  keep_if, All, if◌then◌else◌, string_key, eq_iff,
}
use marmot.Base.Errors.{Result, ok, err, panic}
use marmot.Base.Act.{Act, pure, ◌>>=◌, ◌>>◌}
use marmot.Base.Act.Keeps.{Keeps, if-Keeps, pure-Keeps, then-Keeps}
use marmot.Db.Catalog.{
  SchemaItem, Catalog, call, has_name, add_missing, add_trigger, trigger_on, edit_items,
  select_names, drop_trigger, drop_table, create_missing, create_trigger, is_trigger_named,
  names_of,
}
use marmot.Db.Cdc.{
  drop_triggers, drop_tables, remove_cdc, remove_marmot_triggers, remove_marmot_tables,
  is_marmot_trigger, is_marmot_table,
}

call-items : (c : Catalog) → (call c).1.items ≡ c.items
unfolding call
call-items c = ground arith

module _ (like : String → String → Bool) (prefix : String) where
  -- What the program takes for Marmot's: LIKE matches its name, or the one of its table.
  abbrev pub is_marmot : SchemaItem → Bool
  is_marmot i = like (prefix ++ "%") i.name || like (prefix ++ "%") i.owner

  abbrev pub users : Catalog → List SchemaItem
  users c = keep_if (λ i. not (is_marmot i)) c.items

  pub call-Keeps : Keeps users call
  call-Keeps c = ap (keep_if (λ i. not (is_marmot i))) (call-items c)

  -- One call, and then a change of the items that keeps the users'.
  edit-Keeps :
      (edit : List SchemaItem → List SchemaItem)
      → ((items : List SchemaItem)
          → keep_if (λ i. not (is_marmot i)) (edit items) ≡ keep_if (λ i. not (is_marmot i)) items)
      → Keeps users (call >> edit_items edit)
  edit-Keeps edit same = then-Keeps users call (edit_items edit) call-Keeps (λ c. same c.items)

  dropped-users :
      (p : SchemaItem → Bool)
      → ((i : SchemaItem) → p i ≡ true → is_marmot i ≡ true)
      → (items : List SchemaItem)
      → keep_if (λ i. not (is_marmot i)) (keep_if (λ i. not (p i)) items)
        ≡ keep_if (λ i. not (is_marmot i)) items
  dropped-users p h [] = refl
  dropped-users p h (i ∷ items) = ground (arith, h i, dropped-users p h items)

  added-users :
      (i : SchemaItem)
      → is_marmot i ≡ true
      → (items : List SchemaItem)
      → keep_if (λ i. not (is_marmot i)) (add_missing i items)
        ≡ keep_if (λ i. not (is_marmot i)) items
  added-users i h items = ground (arith, h)

  pub drop_trigger-Keeps :
      (name : String) → like (prefix ++ "%") name ≡ true → Keeps users (drop_trigger name)
  drop_trigger-Keeps name h =
      edit-Keeps (keep_if (λ i. not (is_trigger_named name i)))
        (dropped-users (is_trigger_named name) (λ i e. ground (arith, e, h, eq_iff i.name name)))

  drop_table-Keeps :
      (name : String) → like (prefix ++ "%") name ≡ true → Keeps users (drop_table name)
  drop_table-Keeps name h =
      edit-Keeps (keep_if (λ i. not (str_eq i.owner name))) (
        dropped-users (λ i. str_eq i.owner name) (λ i e. ground (arith, e, h, eq_iff i.owner name)))

  pub create_missing-Keeps : (i : SchemaItem) → is_marmot i ≡ true → Keeps users (create_missing i)
  create_missing-Keeps i h = edit-Keeps (add_missing i) (added-users i h)

  add_trigger-Keeps :
      (name owner : String)
      → like (prefix ++ "%") name ≡ true
      → Keeps users (add_trigger name owner)
  add_trigger-Keeps name owner h c =
      let same = added-users (trigger_on owner name) (rw h refl) c.items in
      elim (Bool-cases (has_name owner c.items)) [ inl e ↦ rw e same | inr e ↦ rw e refl ]

  pub create_trigger-Keeps :
      (name owner : String)
      → like (prefix ++ "%") name ≡ true
      → Keeps users (create_trigger name owner)
  create_trigger-Keeps name owner h =
      then-Keeps users call (add_trigger name owner) call-Keeps (add_trigger-Keeps name owner h)

  drop_triggers-Keeps :
      (names : List String)
      → All (λ name. like (prefix ++ "%") name ≡ true) names
      → Keeps users (drop_triggers names)
  unfolding drop_triggers
  drop_triggers-Keeps [] h = pure-Keeps users tt
  drop_triggers-Keeps (name ∷ names) h =
      then-Keeps users (drop_trigger name) (drop_triggers names) (drop_trigger-Keeps name h.0)
        (drop_triggers-Keeps names h.1)

  drop_tables-Keeps :
      (names : List String)
      → All (λ name. like (prefix ++ "%") name ≡ true) names
      → Keeps users (drop_tables names)
  unfolding drop_tables
  drop_tables-Keeps [] h = pure-Keeps users tt
  drop_tables-Keeps (name ∷ names) h =
      then-Keeps users (drop_table name) (drop_tables names) (drop_table-Keeps name h.0)
        (drop_tables-Keeps names h.1)

  selected-like :
      (p : SchemaItem → Bool)
      → ((i : SchemaItem) → p i ≡ true → like (prefix ++ "%") i.name ≡ true)
      → (items : List SchemaItem)
      → All (λ name. like (prefix ++ "%") name ≡ true) (names_of (keep_if p items))
  selected-like p h [] = tt
  selected-like p h (i ∷ items) = elim (Bool-cases (p i)) [
    | inl e ↦ rw e (h i e, selected-like p h items)
    | inr e ↦ rw e (selected-like p h items)
  ]

  -- What was selected is dropped, with the names that the schema had at that time.
  select-Keeps :
      (p : SchemaItem → Bool) (drop : List String → Act Catalog (Unit {0}))
      → ((i : SchemaItem) → p i ≡ true → like (prefix ++ "%") i.name ≡ true)
      → ((names : List String)
          → All (λ name. like (prefix ++ "%") name ≡ true) names
          → Keeps users (drop names))
      → Keeps users (select_names p >>= drop)
  select-Keeps p drop h keeps c = after (call c) ∙ call-Keeps c
    where
      after :
          (x : Result (Unit {0}) × Catalog)
          → users
              ((((λ (_ : Catalog). x) >> λ d. (ok (names_of (keep_if p d.items)), d)) >>= drop) c).1
            ≡ users x.1
      after (ok a, d) = keeps (names_of (keep_if p d.items)) (selected-like p h d.items) d
      after (err e, d) = refl
      after (panic m, d) = refl

  pub remove_marmot_triggers-Keeps : Keeps users (remove_marmot_triggers like prefix)
  unfolding remove_marmot_triggers
  remove_marmot_triggers-Keeps =
      select-Keeps (is_marmot_trigger like prefix) drop_triggers (λ i e. ground (arith, e))
        drop_triggers-Keeps

  pub remove_marmot_tables-Keeps : Keeps users (remove_marmot_tables like prefix)
  unfolding remove_marmot_tables
  remove_marmot_tables-Keeps =
      select-Keeps (is_marmot_table like prefix) drop_tables (λ i e. ground (arith, e))
        drop_tables-Keeps

  pub remove_cdc-Keeps : (tables : Bool) → Keeps users (remove_cdc like prefix tables)
  unfolding remove_cdc
  remove_cdc-Keeps tables =
      then-Keeps users (call >> remove_marmot_triggers like prefix)
        (if tables then remove_marmot_tables like prefix else pure tt)
        (then-Keeps users call (remove_marmot_triggers like prefix) call-Keeps
          remove_marmot_triggers-Keeps)
        (if-Keeps users tables (remove_marmot_tables like prefix) (pure tt)
          remove_marmot_tables-Keeps (pure-Keeps users tt))

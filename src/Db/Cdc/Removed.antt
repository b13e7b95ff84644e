-- ===== src/Db/Cdc/Removed.antt =====
-- What removing change data capture leaves of the schema, when no call fails.
use text.Mathlib.Text.{◌==◌ as str_eq}
use marmot.Base.{
  String, ◌≡◌, refl, sym, ◌∙◌, arith, Bool, true, false, not, ◌||◌, inl, inr, Bool-cases, List, [],
  ◌∷◌, keep_if, All, All-keep_if, All-map, All-both, eq_iff,
}
use marmot.Base.Errors.{ok}
use marmot.Db.Catalog.{SchemaItem, Catalog, is_table, is_trigger_named, names_of, call}
use marmot.Db.Cdc.{
  is_marmot_trigger, is_marmot_table, drop_triggers, drop_tables, remove_marmot_triggers,
  remove_marmot_tables, remove_cdc,
}

abbrev pub among : String → List String → Bool
among s [] = false
among s (name ∷ names) = str_eq s name || among s names

among-more :
    (n : String) (names xs : List String)
    → All (λ s. among s names ≡ true) xs
    → All (λ s. among s (n ∷ names) ≡ true) xs
among-more n names xs h =
    All-map (λ s. among s names ≡ true) (λ s. among s (n ∷ names) ≡ true) xs
      (λ s e. ground (arith, e)) h

among_self : (names : List String) → All (λ s. among s names ≡ true) names
among_self [] = tt
among_self (n ∷ names) = (ground (arith, eq_iff n n), among-more n names names (among_self names))

call-calm : (c : Catalog) → c.faults ≡ [] → call c ≡ (ok tt, c)
unfolding call
call-calm c calm = ground (arith, calm)

-- Dropping by name, one after the other, drops what is named among them.
module _ (dropped_by : String → SchemaItem → Bool) where
  abbrev drop_named : List String → List SchemaItem → List SchemaItem
  drop_named [] items = items
  drop_named (name ∷ names) items = drop_named names (keep_if (λ i. not (dropped_by name i)) items)

  -- What is left has what every item had.
  drop_named-All :
      (P : SchemaItem → Type 0) (names : List String) (items : List SchemaItem)
      → All P items
      → All P (drop_named names items)
  drop_named-All P [] items h = h
  drop_named-All P (name ∷ names) items h =
      drop_named-All P names (keep_if (λ i. not (dropped_by name i)) items)
        (All-keep_if P P (λ i. not (dropped_by name i)) items (λ i e q. q) h)

  -- Each item has the property, or is dropped by a name that is still ahead.
  abbrev Doomed : (SchemaItem → Type 0) → List String → SchemaItem → Type 0
  Doomed P [] i = P i
  Doomed P (name ∷ names) i = dropped_by name i ≡ false → Doomed P names i

  drop_named-Doomed :
      (P : SchemaItem → Type 0) (names : List String) (items : List SchemaItem)
      → All (Doomed P names) items
      → All P (drop_named names items)
  drop_named-Doomed P [] items h = h
  drop_named-Doomed P (name ∷ names) items h =
      drop_named-Doomed P names (keep_if (λ i. not (dropped_by name i)) items) (
        All-keep_if (Doomed P (name ∷ names)) (Doomed P names) (λ i. not (dropped_by name i)) items
          (λ i e q. q (ground (arith, e))) h)

  Doomed-among :
      (p : SchemaItem → Bool) (i : SchemaItem)
      → ((n : String) → dropped_by n i ≡ false → p i ≡ true → str_eq i.name n ≡ false)
      → (names : List String) → (p i ≡ true → among i.name names ≡ true)
      → Doomed (λ j. p j ≡ false) names i
  Doomed-among p i by_name [] h = ground arith
  Doomed-among p i by_name (n ∷ names) h =
      λ stays. Doomed-among p i by_name names (λ e. ground (arith, h e, by_name n stays e))

selected-among :
    (p : SchemaItem → Bool) (names : List String) (items : List SchemaItem)
    → All (λ s. among s names ≡ true) (names_of (keep_if p items))
    → All (λ i. p i ≡ true → among i.name names ≡ true) items
selected-among p names [] h = tt
selected-among p names (i ∷ items) h = elim (Bool-cases (p i)) [
  | inl e ↦ let h' = rw e at (h) in (λ _. h'.0, selected-among p names items h'.1)
  | inr e ↦ (λ f. absurd (cc (sym e ∙ f)), selected-among p names items (rw e at (h)))
]

drop_triggers-runs :
    (names : List String) (c : Catalog)
    → c.faults ≡ []
    → drop_triggers names c
      ≡ (ok tt, record c { items = drop_named is_trigger_named names c.items })
unfolding drop_triggers
drop_triggers-runs [] c calm = refl
drop_triggers-runs (name ∷ names) c calm = ground (
  arith,
  call-calm c calm,
  drop_triggers-runs names
      (record c { items = keep_if (λ i. not (is_trigger_named name i)) c.items }) calm,
)

abbrev is_owned_by : String → SchemaItem → Bool
is_owned_by name i = str_eq i.owner name

drop_tables-runs :
    (names : List String) (c : Catalog)
    → c.faults ≡ []
    → drop_tables names c ≡ (ok tt, record c { items = drop_named is_owned_by names c.items })
unfolding drop_tables
drop_tables-runs [] c calm = refl
drop_tables-runs (name ∷ names) c calm = ground (
  arith,
  call-calm c calm,
  drop_tables-runs names (record c { items = keep_if (λ i. not (is_owned_by name i)) c.items })
      calm,
)

-- Every table is its own owner in `sqlite_master`.
abbrev pub TablesOwnThemselves : List SchemaItem → Type 0
TablesOwnThemselves = All (λ i. is_table i.type ≡ true → i.owner ≡ i.name)

module _ (like : String → String → Bool) (prefix : String) where
  -- The names of the triggers that are dropped, and of the tables.
  abbrev triggers_of : List SchemaItem → List String
  triggers_of items = names_of (keep_if (is_marmot_trigger like prefix) items)

  abbrev tables_of : List SchemaItem → List String
  tables_of items = names_of (keep_if (is_marmot_table like prefix) items)

  no_triggers :
      (items : List SchemaItem)
      → All
          (λ i. is_marmot_trigger like prefix i ≡ false)
          (drop_named is_trigger_named (triggers_of items) items)
  no_triggers items =
      drop_named-Doomed is_trigger_named (λ i. is_marmot_trigger like prefix i ≡ false)
        (triggers_of items) items
        (All-map
          (λ i. is_marmot_trigger like prefix i ≡ true → among i.name (triggers_of items) ≡ true)
          (Doomed is_trigger_named (λ i. is_marmot_trigger like prefix i ≡ false)
            (triggers_of items))
          items
          (λ i.
            Doomed-among is_trigger_named (is_marmot_trigger like prefix) i
              (λ n stays e. ground (arith, stays, e)) (triggers_of items))
          (selected-among (is_marmot_trigger like prefix) (triggers_of items) items
            (among_self (triggers_of items))))

  no_tables :
      (items : List SchemaItem)
      → TablesOwnThemselves items
      → All
          (λ i. is_marmot_table like prefix i ≡ false)
          (drop_named is_owned_by (tables_of items) items)
  no_tables items own =
      drop_named-Doomed is_owned_by (λ i. is_marmot_table like prefix i ≡ false) (tables_of items)
        items
        (All-both (λ i. is_table i.type ≡ true → i.owner ≡ i.name)
          (λ i. is_marmot_table like prefix i ≡ true → among i.name (tables_of items) ≡ true)
          (Doomed is_owned_by (λ i. is_marmot_table like prefix i ≡ false) (tables_of items)) items
          (λ i owns.
            Doomed-among is_owned_by (is_marmot_table like prefix) i
              (λ n stays e. by_owner i n owns stays e) (tables_of items))
          own
          (selected-among (is_marmot_table like prefix) (tables_of items) items
            (among_self (tables_of items))))
    where
      by_owner :
          (i : SchemaItem) (n : String)
          → (is_table i.type ≡ true → i.owner ≡ i.name)
          → str_eq i.owner n ≡ false
          → is_marmot_table like prefix i ≡ true
          → str_eq i.name n ≡ false
      by_owner i n owns stays e =
          let is_own : is_table i.type ≡ true = ground (arith, e) in rw (← owns is_own) stays

  remove_marmot_triggers-runs :
      (c : Catalog)
      → c.faults ≡ []
      → remove_marmot_triggers like prefix c
        ≡ (ok tt, record c { items = drop_named is_trigger_named (triggers_of c.items) c.items })
  unfolding remove_marmot_triggers
  remove_marmot_triggers-runs c calm =
      ground (arith, call-calm c calm, drop_triggers-runs (triggers_of c.items) c calm)

  remove_marmot_tables-runs :
      (c : Catalog)
      → c.faults ≡ []
      → remove_marmot_tables like prefix c
        ≡ (ok tt, record c { items = drop_named is_owned_by (tables_of c.items) c.items })
  unfolding remove_marmot_tables
  remove_marmot_tables-runs c calm =
      ground (arith, call-calm c calm, drop_tables-runs (tables_of c.items) c calm)

  pub remove_marmot_triggers-removes :
      (c : Catalog)
      → c.faults ≡ []
      → TablesOwnThemselves c.items
      → (items : List SchemaItem) × (remove_marmot_triggers like prefix c
          ≡ (ok tt, record c { items = items }))
        × All (λ i. is_marmot_trigger like prefix i ≡ false) items
        × TablesOwnThemselves items
  remove_marmot_triggers-removes c calm own = (
    drop_named is_trigger_named (triggers_of c.items) c.items,
    remove_marmot_triggers-runs c calm,
    no_triggers c.items,
    drop_named-All is_trigger_named _ (triggers_of c.items) c.items own,
  )

  pub remove_marmot_tables-removes :
      (c : Catalog)
      → c.faults ≡ []
      → TablesOwnThemselves c.items
      → All (λ i. is_marmot_trigger like prefix i ≡ false) c.items
      → (items : List SchemaItem) × (remove_marmot_tables like prefix c
          ≡ (ok tt, record c { items = items }))
        × All (λ i. is_marmot_trigger like prefix i ≡ false) items
        × All (λ i. is_marmot_table like prefix i ≡ false) items
  remove_marmot_tables-removes c calm own no_trigger = (
    drop_named is_owned_by (tables_of c.items) c.items,
    remove_marmot_tables-runs c calm,
    drop_named-All is_owned_by _ (tables_of c.items) c.items no_trigger,
    no_tables c.items own,
  )

  -- Whether the tables are to be removed, and are.
  abbrev pub TablesGone : Bool → List SchemaItem → Type 0
  TablesGone true items = All (λ i. is_marmot_table like prefix i ≡ false) items
  TablesGone false items = Unit

  -- With no failing call, and every table its own owner in the schema: RemoveCDC returns no error
  -- and leaves no trigger whose name LIKE matches, and no such table either if it is asked to
  -- remove the tables.
  pub remove_cdc-removes :
      (tables : Bool) (c : Catalog)
      → c.faults ≡ []
      → TablesOwnThemselves c.items
      → (d : Catalog) × (remove_cdc like prefix tables c ≡ (ok tt, d))
        × All (λ i. is_marmot_trigger like prefix i ≡ false) d.items
        × TablesGone tables d.items
  unfolding remove_cdc
  remove_cdc-removes false c calm own =
      let (items, runs, gone, own') = remove_marmot_triggers-removes c calm own in
      (record c { items = items }, ground (arith, call-calm c calm, runs), gone, tt)
  remove_cdc-removes true c calm own =
      let (items, runs, gone, own') = remove_marmot_triggers-removes c calm own in
      let (items', runs', gone', no_table) =
        remove_marmot_tables-removes (record c { items = items }) calm own' gone in
      (record c { items = items' }, ground (arith, call-calm c calm, runs, runs'), gone', no_table)

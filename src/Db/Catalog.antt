-- ===== src/Db/Catalog.antt =====
-- The schema of a SQLite database, as `sqlite_master` lists it, without SQLite's own tables, and the
-- statements that db/ executes on it. Each call of the database may fail, by the next of a list.
use Prim.Native.String.{◌++◌}
use text.Mathlib.Text.{◌==◌}
use marmot.Base.{
  ℕ, String, Bool, true, false, ◌&&◌, not, Option, none, some, List, [], ◌∷◌, keep_if,
  if◌then◌else◌, string_key,
}
use marmot.Base.Errors.{Error, Result, ok, err, panic, library}
use marmot.Base.Act.{Act, ◌>>◌}
use marmot.Base.Maps.{Map}
use marmot.Db.Event.{Value}

pub data Kind : Type 0 where
  table index trigger view : Kind

abbrev pub is_table : Kind → Bool
is_table table = true
is_table _ = false

abbrev pub is_trigger : Kind → Bool
is_trigger trigger = true
is_trigger _ = false

-- A row of `sqlite_master`; `owner` is its `tbl_name`.
pub record SchemaItem : Type 0 where
  pub type : Kind
  pub name : String
  pub owner : String

-- A row of `pragma_table_info`.
pub record PragmaRow : Type 0 where
  pub name : String
  pub type : String
  pub not_null : Bool
  pub default_value : Value
  pub primary_key_index : ℕ

pub record Catalog : Type 0 where
  pub items : List SchemaItem
  pub columns : Map String (List PragmaRow)
  pub faults : List (Option Error)

abbrev next_call : List (Option Error) → Catalog → Result (Unit {0}) × Catalog
next_call [] c = (ok tt, c)
next_call (none ∷ faults) c = (ok tt, record c { faults = faults })
next_call (some e ∷ faults) c = (err e, record c { faults = faults })

-- One call of the database.
unfoldable pub call : Act Catalog (Unit {0})
call c = next_call c.faults c

abbrev moved : Result (Unit {0}) × Catalog → Result Bool × Catalog
moved (ok _, c) = (ok true, c)
moved (err e, c) = (ok false, c)
moved (panic m, c) = (panic m, c)

-- `Next` of rows: an error ends them, as their end does.
unfoldable pub next_row : Act Catalog Bool
next_row c = moved (call c)

abbrev pub names_of : List SchemaItem → List String
names_of [] = []
names_of (i ∷ items) = i.name ∷ names_of items

-- `SELECT name FROM sqlite_master WHERE …`
abbrev pub select_names : (SchemaItem → Bool) → Act Catalog (List String)
select_names p = call >> λ c. (ok (names_of (keep_if p c.items)), c)

abbrev pub is_trigger_named : String → SchemaItem → Bool
is_trigger_named name i = is_trigger i.type && i.name == name

abbrev pub edit_items : (List SchemaItem → List SchemaItem) → Act Catalog (Unit {0})
edit_items edit c = (ok tt, record c { items = edit c.items })

-- `DROP TRIGGER IF EXISTS name`
abbrev pub drop_trigger : String → Act Catalog (Unit {0})
drop_trigger name = call >> edit_items (keep_if (λ i. not (is_trigger_named name i)))

-- `DROP TABLE IF EXISTS name`, with the table's indexes and triggers.
abbrev pub drop_table : String → Act Catalog (Unit {0})
drop_table name = call >> edit_items (keep_if (λ i. not (i.owner == name)))

abbrev pub has_name : String → List SchemaItem → Bool
has_name name [] = false
has_name name (i ∷ items) = if i.name == name then true else has_name name items

abbrev pub add_missing : SchemaItem → List SchemaItem → List SchemaItem
add_missing i items = if has_name i.name items then items else i ∷ items

-- `CREATE … IF NOT EXISTS`
abbrev pub create_missing : SchemaItem → Act Catalog (Unit {0})
create_missing i = call >> edit_items (add_missing i)

abbrev pub trigger_on : String → String → SchemaItem
trigger_on owner name = record { type = trigger; name = name; owner = owner }

abbrev pub add_trigger : String → String → Act Catalog (Unit {0})
add_trigger name owner c =
    if has_name owner c.items
    then edit_items (add_missing (trigger_on owner name)) c
    else (err (library ("no such table: main." ++ owner)), c)

-- `CREATE TRIGGER IF NOT EXISTS … ON owner`
abbrev pub create_trigger : String → String → Act Catalog (Unit {0})
create_trigger name owner = call >> add_trigger name owner

-- ===== src/Db/Store.antt =====
-- The state of db/: the change-log tables that the scripts db/table_change_log_script.tmpl and
-- db/global_change_log_script.tmpl create, and the actions on them. Each call of the database may
-- fail, by the next entry of a list of faults.
pub mod Calls
pub mod Links
use Prim.Native.String.{◌++◌}
use marmot.Base.{
  ℕ, zero, suc, String, Bool, true, false, ◌&&◌, Option, none, some, List, [], ◌∷◌, if◌then◌else◌,
  nat_beq, ltb, leb, string_key,
}
use marmot.Base.Maps.{Map, lookup, insert}
use marmot.Base.Int.{ℤ, pos, negsuc, int_beq}
use marmot.Base.Errors.{Error, Result, ok, err, panic, library}
use marmot.Db.Event.{Row, ColumnInfo, ChangeLogEvent}

abbrev pub ChangeLogState : Type 0
ChangeLogState = ℤ

abbrev pub pending : ChangeLogState
pending = pos 0

abbrev pub published : ChangeLogState
published = pos 1

abbrev pub failed : ChangeLogState
failed = negsuc 0

abbrev pub change_log_name : String
change_log_name = "change_log"

-- A row of a table's change log; `values` has the columns `val_*`.
pub record LogRow : Type 0 where
  pub id : ℕ
  pub values : Row
  pub type : String
  pub created_at : ℕ
  pub state : ChangeLogState

-- A table with an autoincremented key: its rows in order of insertion, and the next key.
pub record LogTable : Type 0 where
  pub rows : List LogRow
  pub next_id : ℕ

pub record GlobalChangeLogEntry : Type 0 where
  pub id : ℕ
  pub change_table_id : ℕ
  pub table_name : String

-- The fields of `SqliteStreamDB` that do not change once changes are watched. `OnChange` acts on the
-- world `W` behind it.
pub record SqliteStreamDb (W : Type 0) : Type 0 where
  pub on_change : Option (ChangeLogEvent → W → Result (Unit {0}) × W)
  pub prefix : String
  pub watch_tables_schema : Map String (List ColumnInfo)

pub record Store (W : Type 0) : Type 0 where
  pub logs : Map String LogTable
  pub global : List GlobalChangeLogEntry
  pub next_global : ℕ
  pub publish_lock : Bool
  pub pending_publish : ℕ
  pub published_count : ℕ
  pub world : W
  pub faults : List (Option Error)

-- An action that returns or fails, and leaves a store.
abbrev pub M : Type 0 → Type 0 → Type 0
M W A = Store W → Result A × Store W

module _ {W : Type 0} where
  -- One call of the database.
  unfoldable pub call : M W (Unit {0})
  call s = elim s.faults [
    | [] ↦ (ok tt, s)
    | f ∷ faults ↦
        let s' : Store W = record s { faults = faults } in
        elim f [ none ↦ (ok tt, s') | some e ↦ (err e, s') ]
  ]

  infixl 5 ◌>>=◌ ◌>>◌
  abbrev pub ◌>>=◌ : {A B : Type 0} → M W A → (A → M W B) → M W B
  ◌>>=◌ m f s =
      let (r, s') = m s in elim r [ ok a ↦ f a s' | err e ↦ (err e, s') | panic m ↦ (panic m, s') ]

  abbrev pub ◌>>◌ : {B : Type 0} → M W (Unit {0}) → M W B → M W B
  m >> k = m >>= λ _. k

  -- So many calls one after the other, up to the first that fails.
  unfoldable pub calls : ℕ → M W (Unit {0})
  calls zero s = (ok tt, s)
  calls (suc n) s = (call >> calls n) s

module _ {W : Type 0} where
  abbrev moved : Result (Unit {0}) × Store W → Result Bool × Store W
  moved (ok _, s) = (ok true, s)
  moved (err e, s) = (ok false, s)
  moved (panic m, s) = (panic m, s)

  -- `Next` of rows: an error ends them, as their end does.
  unfoldable pub next_row : M W Bool
  next_row s = moved (call s)

unfoldable pub meta_table : String → String → String → String
meta_table prefix table_name name = prefix ++ (table_name ++ ("_" ++ name))

-- The change log of a table.
abbrev pub log_of : {W : Type 0} → SqliteStreamDb W → String → String
log_of conn table_name = meta_table conn.prefix table_name change_log_name

abbrev pub no_such_table : Error
no_such_table = library "no such table"

is_pending : ℕ → LogRow → Bool
is_pending id row = int_beq row.state pending && nat_beq row.id id

-- `WHERE state = 0 AND id = …`, the first row.
unfoldable pub find_pending : ℕ → List LogRow → Option LogRow
unfolding is_pending
find_pending id [] = none
find_pending id (row ∷ rows) = if is_pending id row then some row else find_pending id rows

-- `UPDATE … SET state = 1 WHERE id = …`
unfoldable pub set_published : ℕ → List LogRow → List LogRow
set_published id [] = []
set_published id (row ∷ rows) =
    (if nat_beq row.id id then record row { state = published } else row) ∷ set_published id rows

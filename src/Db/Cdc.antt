-- ===== src/Db/Cdc.antt =====
-- `InstallCDC` and `RemoveCDC` of db/sqlite.go, with db/cleanup.go and the scripts that db/change_log.go
-- executes. `like` is the operator LIKE of SQLite, with the pattern first.
pub mod Kept
pub mod Installed
pub mod Removed
use Prim.Native.String.{◌++◌}
use text.Mathlib.Text.{starts_with}
use marmot.Base.{
  String, Bool, ◌&&◌, ◌||◌, Option, none, some, List, [], ◌∷◌, if◌then◌else◌, string_key,
}
use marmot.Base.Maps.{Map, lookup, insert}
use marmot.Base.Spaces.{trim_space}
use marmot.Base.Errors.{Error, Result, ok, err, panic, library}
use marmot.Base.Act.{Act, pure, throw, ◌>>=◌, ◌>>◌}
use marmot.Db.Event.{ColumnInfo}
use marmot.Db.Store.{meta_table, change_log_name}
use marmot.Db.Catalog.{
  SchemaItem, Catalog, Kind, table, index, is_table, is_trigger, call, select_names, drop_trigger,
  drop_table, create_missing, create_trigger,
}
use marmot.Db.Tables.{get_table_info}

-- The part of `SqliteStreamDB` that the installation changes, and the schema of its database.
pub record StreamDb : Type 0 where
  pub catalog : Catalog
  pub watch_tables_schema : Map String (List ColumnInfo)

abbrev put_catalog : {A : Type 0} → StreamDb → Result A × Catalog → Result A × StreamDb
put_catalog s (r, c) = (r, record s { catalog = c })

abbrev pub on_catalog : {A : Type 0} → Act Catalog A → Act StreamDb A
on_catalog m s = put_catalog s (m s.catalog)

unfoldable pub drop_triggers : List String → Act Catalog (Unit {0})
drop_triggers [] = pure tt
drop_triggers (name ∷ names) = drop_trigger name >> drop_triggers names

unfoldable pub drop_tables : List String → Act Catalog (Unit {0})
drop_tables [] = pure tt
drop_tables (name ∷ names) = drop_table name >> drop_tables names

abbrev watch_as : String → List ColumnInfo → Act StreamDb (Unit {0})
watch_as name columns s =
    (ok tt, record s { watch_tables_schema = insert name columns s.watch_tables_schema })

watch_table : String → Act StreamDb (Unit {0})
watch_table name = on_catalog (get_table_info name) >>= watch_as name

unfoldable pub watch_tables : List String → Act StreamDb (Unit {0})
unfolding watch_table
watch_tables [] = pure tt
watch_tables (name ∷ names) = watch_table name >> watch_tables names

module _ (prefix : String) where
  abbrev pub global_meta_table : String
  global_meta_table = prefix ++ "_change_log_global"

  -- The script of the global log, which is one statement.
  unfoldable pub init_global_change_log : Act Catalog (Unit {0})
  init_global_change_log =
      call
      >> create_missing
          (record { type = table; name = global_meta_table; owner = global_meta_table })

  abbrev pub trigger_name : String → String → String
  trigger_name table_name event = meta_table prefix table_name change_log_name ++ ("_on_" ++ event)

  -- A trigger is created afresh.
  replace_trigger : String → String → Act Catalog (Unit {0})
  replace_trigger table_name event =
      drop_trigger (trigger_name table_name event)
      >> create_trigger (trigger_name table_name event) table_name

  -- The script of a table's log; the template ranges over the events by name.
  table_cdc_script : String → Act Catalog (Unit {0})
  unfolding replace_trigger
  table_cdc_script table_name =
      let log = meta_table prefix table_name change_log_name in
      create_missing (record { type = table; name = log; owner = log })
      >> create_missing (record { type = index; name = log ++ "_state_index"; owner = log })
      >> replace_trigger table_name "delete"
      >> replace_trigger table_name "insert"
      >> replace_trigger table_name "update"

  table_cdc_script_for : String → Act StreamDb (Unit {0})
  unfolding table_cdc_script
  table_cdc_script_for name s = elim (lookup name s.watch_tables_schema) [
    | none ↦ (err (library "table info not found"), s)
    | some columns ↦ on_catalog (table_cdc_script name) s
  ]

  unfoldable pub init_triggers : String → Act StreamDb (Unit {0})
  unfolding table_cdc_script_for
  init_triggers table_name =
      let name = trim_space table_name in
      on_catalog call
      >> (if starts_with name "sqlite_" || starts_with name prefix
          then throw (library ("invalid table to watch " ++ table_name))
          else table_cdc_script_for name)

  init_all_triggers : Map String (List ColumnInfo) → Act StreamDb (Unit {0})
  unfolding init_triggers
  init_all_triggers [] = pure tt
  init_all_triggers ((name, columns) ∷ tables) = init_triggers name >> init_all_triggers tables

  unfoldable pub install_change_log_triggers : Act StreamDb (Unit {0})
  unfolding init_all_triggers init_global_change_log
  install_change_log_triggers =
      on_catalog init_global_change_log >> λ s. init_all_triggers s.watch_tables_schema s

  -- `InstallCDC` up to the start of `watchChanges`: the connection, the transaction that reads the
  -- tables, the scripts, and the watcher.
  unfoldable pub install_cdc : List String → Act StreamDb (Unit {0})
  unfolding watch_tables install_change_log_triggers
  install_cdc tables =
      on_catalog (call >> call)
      >> watch_tables tables
      >> on_catalog call
      >> install_change_log_triggers
      >> on_catalog call

module _ (like : String → String → Bool) (prefix : String) where
  abbrev pub is_marmot_trigger : SchemaItem → Bool
  is_marmot_trigger i = is_trigger i.type && like (prefix ++ "%") i.name

  abbrev pub is_marmot_table : SchemaItem → Bool
  is_marmot_table i = is_table i.type && like (prefix ++ "%") i.name

  unfoldable pub remove_marmot_triggers : Act Catalog (Unit {0})
  unfolding drop_triggers
  remove_marmot_triggers = select_names is_marmot_trigger >>= drop_triggers

  unfoldable pub remove_marmot_tables : Act Catalog (Unit {0})
  unfolding drop_tables
  remove_marmot_tables = select_names is_marmot_table >>= drop_tables

  -- `RemoveCDC`, which borrows a connection first.
  unfoldable pub remove_cdc : Bool → Act Catalog (Unit {0})
  unfolding remove_marmot_triggers remove_marmot_tables
  remove_cdc tables =
      call >> remove_marmot_triggers >> (if tables then remove_marmot_tables else pure tt)

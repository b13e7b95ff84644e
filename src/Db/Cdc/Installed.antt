-- ===== src/Db/Cdc/Installed.antt =====
-- Installing change data capture changes nothing of the schema but what is Marmot's.
use Prim.Native.String.{◌++◌}
use text.Mathlib.Text.{starts_with}
use text.Mathlib.TextLemmas.{append_assoc}
use marmot.Base.{
  String, Bool, ◌≡◌, refl, ap, true, ◌||◌, not, keep_if, List, [], ◌∷◌, Option-cases, if◌then◌else◌,
  inl, inr, string_key,
}
use marmot.Base.Maps.{Map, lookup}
use marmot.Base.Spaces.{trim_space}
use marmot.Base.Errors.{library}
use marmot.Base.Act.{Act, throw, ◌>>◌}
use marmot.Base.Act.Keeps.{Keeps, if-Keeps, pure-Keeps, throw-Keeps, bind-Keeps, then-Keeps}
use marmot.Db.Event.{ColumnInfo}
use marmot.Db.Store.{meta_table, change_log_name}
use marmot.Db.Catalog.{
  SchemaItem, Catalog, call, table, index, drop_trigger, create_missing, create_trigger,
}
use marmot.Db.Tables.{get_table_info}
use marmot.Db.Tables.ReadOnly.{get_table_info-Keeps}
use marmot.Db.Cdc.{
  StreamDb, on_catalog, global_meta_table, trigger_name, init_global_change_log, replace_trigger,
  table_cdc_script, table_cdc_script_for, init_triggers, init_all_triggers,
  install_change_log_triggers, watch_as, watch_table, watch_tables, install_cdc, remove_cdc,
}
use marmot.Db.Cdc.Kept.{
  users, is_marmot, remove_cdc-Keeps, call-Keeps, create_missing-Keeps, create_trigger-Keeps,
  drop_trigger-Keeps,
}

-- The law of LIKE on a pattern that ends in a percent sign: a name that begins with the text before it
-- is matched.
module _ (like : String → String → Bool) (prefix : String)
    (like_prefix : (s : String) → like (prefix ++ "%") (prefix ++ s) ≡ true) where
  abbrev kept : Catalog → List SchemaItem
  kept = users like prefix

  abbrev pub users_of : StreamDb → List SchemaItem
  users_of s = users like prefix s.catalog

  log-like :
      (name rest : String)
      → like (prefix ++ "%") (meta_table prefix name change_log_name ++ rest) ≡ true
  unfolding meta_table
  log-like name rest =
      rw (append_assoc prefix (name ++ ("_" ++ change_log_name)) rest) (like_prefix _)

  replace_trigger-Keeps : (name event : String) → Keeps kept (replace_trigger prefix name event)
  unfolding replace_trigger
  replace_trigger-Keeps name event =
      let t = trigger_name prefix name event in
      then-Keeps kept (drop_trigger t) (create_trigger t name)
        (drop_trigger-Keeps like prefix t (log-like name ("_on_" ++ event)))
        (create_trigger-Keeps like prefix t name (log-like name ("_on_" ++ event)))

  log-IsMarmot :
      (name : String) → like (prefix ++ "%") (meta_table prefix name change_log_name) ≡ true
  unfolding meta_table
  log-IsMarmot name = like_prefix (name ++ ("_" ++ change_log_name))

  table_cdc_script-Keeps : (name : String) → Keeps kept (table_cdc_script prefix name)
  unfolding table_cdc_script
  table_cdc_script-Keeps name =
      let log = meta_table prefix name change_log_name in
      let own = log-IsMarmot name in
      let log_table : SchemaItem = record { type = table; name = log; owner = log } in
      let log_index : SchemaItem = record {
        type = index;
        name = log ++ "_state_index";
        owner = log;
      } in
      let a = create_missing log_table in
      let b = create_missing log_index in
      let c = replace_trigger prefix name "delete" in
      let d = replace_trigger prefix name "insert" in
      let e = replace_trigger prefix name "update" in
      then-Keeps kept (a >> b >> c >> d) e
        (then-Keeps kept (a >> b >> c) d
          (then-Keeps kept (a >> b) c
            (then-Keeps kept a b (create_missing-Keeps like prefix log_table (rw own refl)) (
              create_missing-Keeps like prefix log_index
                (rw (own, log-like name "_state_index") refl)))
            (replace_trigger-Keeps name "delete"))
          (replace_trigger-Keeps name "insert"))
        (replace_trigger-Keeps name "update")

  lift-Keeps : {A : Type 0} (m : Act Catalog A) → Keeps kept m → Keeps users_of (on_catalog m)
  lift-Keeps m keeps s = keeps s.catalog

  calling-Keeps : Keeps users_of (on_catalog call)
  calling-Keeps = lift-Keeps call (call-Keeps like prefix)

  table_cdc_script_for-Keeps : (name : String) → Keeps users_of (table_cdc_script_for prefix name)
  unfolding table_cdc_script_for
  table_cdc_script_for-Keeps name s = elim (Option-cases (lookup name s.watch_tables_schema)) [
    | inl e ↦ rw (e, table_cdc_script_for) refl
    | inr (columns, e) ↦ rw (e, table_cdc_script_for) (table_cdc_script-Keeps name s.catalog)
  ]

  init_triggers-Keeps : (table_name : String) → Keeps users_of (init_triggers prefix table_name)
  unfolding init_triggers
  init_triggers-Keeps table_name =
      let name = trim_space table_name in
      let invalid = starts_with name "sqlite_" || starts_with name prefix in
      let e = library ("invalid table to watch " ++ table_name) in
      then-Keeps users_of (on_catalog call)
        (if invalid then throw e else table_cdc_script_for prefix name) calling-Keeps
        (if-Keeps users_of invalid (throw e) (table_cdc_script_for prefix name)
          (throw-Keeps users_of (Unit {0}) e) (table_cdc_script_for-Keeps name))

  init_all_triggers-Keeps :
      (tables : Map String (List ColumnInfo)) → Keeps users_of (init_all_triggers prefix tables)
  unfolding init_all_triggers
  init_all_triggers-Keeps [] = pure-Keeps users_of tt
  init_all_triggers-Keeps ((name, columns) ∷ tables) =
      then-Keeps users_of (init_triggers prefix name) (init_all_triggers prefix tables)
        (init_triggers-Keeps name) (init_all_triggers-Keeps tables)

  init_global_change_log-Keeps : Keeps kept (init_global_change_log prefix)
  unfolding init_global_change_log
  init_global_change_log-Keeps =
      let global = global_meta_table prefix in
      let global_table : SchemaItem = record { type = table; name = global; owner = global } in
      then-Keeps kept call (create_missing global_table) (call-Keeps like prefix)
        (create_missing-Keeps like prefix global_table (rw (like_prefix "_change_log_global") refl))

  install_change_log_triggers-Keeps : Keeps users_of (install_change_log_triggers prefix)
  unfolding install_change_log_triggers
  install_change_log_triggers-Keeps =
      then-Keeps users_of (on_catalog (init_global_change_log prefix))
        (λ s. init_all_triggers prefix s.watch_tables_schema s)
        (lift-Keeps (init_global_change_log prefix) init_global_change_log-Keeps)
        (λ s. init_all_triggers-Keeps s.watch_tables_schema s)

  watch_table-Keeps : (name : String) → Keeps users_of (watch_table name)
  unfolding watch_table
  watch_table-Keeps name =
      bind-Keeps users_of (on_catalog (get_table_info name)) (watch_as name)
        (lift-Keeps (get_table_info name)
          (λ c. ap (keep_if (λ i. not (is_marmot like prefix i))) (get_table_info-Keeps name c)))
        (λ columns s. refl)

  watch_tables-Keeps : (names : List String) → Keeps users_of (watch_tables names)
  unfolding watch_tables
  watch_tables-Keeps [] = pure-Keeps users_of tt
  watch_tables-Keeps (name ∷ names) =
      then-Keeps users_of (watch_table name) (watch_tables names) (watch_table-Keeps name)
        (watch_tables-Keeps names)

  install_cdc-Keeps : (tables : List String) → Keeps users_of (install_cdc prefix tables)
  unfolding install_cdc
  install_cdc-Keeps tables =
      let start = on_catalog (call >> call) in
      let read = watch_tables tables in
      let triggers = install_change_log_triggers prefix in
      let last = on_catalog call in
      then-Keeps users_of (start >> read >> last >> triggers) last
        (then-Keeps users_of (start >> read >> last) triggers
          (then-Keeps users_of (start >> read) last
            (then-Keeps users_of start read
              (lift-Keeps (call >> call)
                (then-Keeps kept call call (call-Keeps like prefix) (call-Keeps like prefix)))
              (watch_tables-Keeps tables))
            calling-Keeps)
          install_change_log_triggers-Keeps)
        calling-Keeps

  -- With a LIKE that matches every name that begins with the prefix: however InstallCDC or
  -- RemoveCDC ends, and whatever calls of the database fail, the schema keeps, in their order, all
  -- items whose name and whose table LIKE does not match.
  pub cdc-Keeps :
      (names : List String) (tables : Bool)
      → Keeps users_of (install_cdc prefix names)
        × Keeps (users like prefix) (remove_cdc like prefix tables)
  cdc-Keeps names tables = (install_cdc-Keeps names, remove_cdc-Keeps like prefix tables)

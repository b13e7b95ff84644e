-- ===== src/Db/Backup/Cleaned.antt =====
-- A backup of db/sqlite.go has the schema of the user, without what is Marmot's.
use marmot.Base.{
  String, ◌≡◌, ◌≢◌, refl, sym, ap, ◌∙◌, arith, Bool, false, not, List, [], All, keep_if, string_key,
}
use marmot.Base.Maps.{Map, lookup, insert, lookup-insert_other, lookup-insert_self}
use marmot.Base.Errors.{Result, ok}
use marmot.Base.Act.{Act}
use marmot.Db.Catalog.{SchemaItem, Catalog, call}
use marmot.Db.Cdc.{is_marmot_trigger, is_marmot_table, remove_marmot_triggers, remove_marmot_tables}
use marmot.Db.Cdc.Kept.{is_marmot, users, remove_marmot_triggers-Keeps, remove_marmot_tables-Keeps}
use marmot.Db.Cdc.Removed.{
  TablesOwnThemselves, remove_marmot_triggers-removes, remove_marmot_tables-removes,
}
use marmot.Db.Backup.{Files, items_at, opened, on_file, file_call, vacuum_into, backup_to}

file_call-calm : (f : Files) → f.faults ≡ [] → file_call f ≡ (ok tt, f)
unfolding file_call call
file_call-calm f calm = ground (arith, calm)

items_at-insert :
    (path : String) (items : List SchemaItem) (schemas : Map String (List SchemaItem))
    → items_at path (insert path items schemas) ≡ items
items_at-insert path items schemas = rw (lookup-insert_self path items schemas) refl

-- A statement on one file writes its schema.
on_file-writes :
    (path : String) (m : Act Catalog (Unit {0})) (items : List SchemaItem) (f : Files)
    → m (opened path f) ≡ (ok tt, record (opened path f) { items = items })
    → on_file path m f ≡ (ok tt, record f { schemas = insert path items f.schemas })
unfolding on_file
on_file-writes path m items f e = ground (arith, e)

vacuum_into-copies :
    (from to : String) (f : Files)
    → f.faults ≡ []
    → vacuum_into from to f
      ≡ (ok tt, record f { schemas = insert to (items_at from f.schemas) f.schemas })
unfolding vacuum_into
vacuum_into-copies from to f calm = ground (arith, file_call-calm f calm)

module _ (like : String → String → Bool) (prefix : String) where
  -- What a backup is of a schema.
  pub record IsClean (items backup : List SchemaItem) : Type 0 where
    pub no_triggers : All (λ i. is_marmot_trigger like prefix i ≡ false) backup
    pub no_tables : All (λ i. is_marmot_table like prefix i ≡ false) backup
    pub same_users :
        keep_if (λ i. not (is_marmot like prefix i)) backup
        ≡ keep_if (λ i. not (is_marmot like prefix i)) items

  users-after :
      (m : Act Catalog (Unit {0})) (items before : List SchemaItem) (c : Catalog)
      → m c ≡ (ok tt, record c { items = items })
      → users like prefix (m c).1 ≡ users like prefix c
      → c.items ≡ before
      → keep_if (λ i. not (is_marmot like prefix i)) items
        ≡ keep_if (λ i. not (is_marmot like prefix i)) before
  users-after m items before c e kept at =
      sym (ap (λ (r : Result (Unit {0}) × Catalog). users like prefix r.1) e)
      ∙ kept
      ∙ ap (keep_if (λ i. not (is_marmot like prefix i))) at

  -- With no failing call, and every table its own owner in the schema: BackupTo returns no error,
  -- the backup has no trigger and no table whose name LIKE matches, it has all items that are not
  -- Marmot's in their order, and no other file changes its schema.
  pub backup_to-IsClean :
      (db_path bk_file_path : String) (f : Files)
      → f.faults ≡ []
      → TablesOwnThemselves (items_at db_path f.schemas)
      → (g : Files) × (backup_to like prefix db_path bk_file_path f ≡ (ok tt, g))
        × IsClean (items_at db_path f.schemas) (items_at bk_file_path g.schemas)
        × ((path : String) → path ≢ bk_file_path → lookup path g.schemas ≡ lookup path f.schemas)
  unfolding backup_to
  backup_to-IsClean db bk f calm own =
      let items = items_at db f.schemas in
      let f1 : Files = record f { schemas = insert bk items f.schemas } in
      let c1 : Catalog = opened bk f1 in
      let at1 = items_at-insert bk items f.schemas in
      let (items2, runs, gone, own2) =
        remove_marmot_triggers-removes like prefix c1 calm (rw at1 own) in
      let f2 : Files = record f1 { schemas = insert bk items2 f1.schemas } in
      let at2 = items_at-insert bk items2 f1.schemas in
      let c2 : Catalog = opened bk f2 in
      let (items3, runs', gone', no_table) =
        remove_marmot_tables-removes like prefix c2 calm (rw at2 own2) (rw at2 gone) in
      let f3 : Files = record f2 { schemas = insert bk items3 f2.schemas } in
      let at3 = items_at-insert bk items3 f2.schemas in
      (
        f3,
        ground (
          arith,
          file_call-calm f calm,
          file_call-calm f1 calm,
          file_call-calm f3 calm,
          vacuum_into-copies db bk f calm,
          on_file-writes bk (remove_marmot_triggers like prefix) items2 f1 runs,
          on_file-writes bk (remove_marmot_tables like prefix) items3 f2 runs',
        ),
        record {
          no_triggers = rw at3 gone';
          no_tables = rw at3 no_table;
          same_users = rw at3 (
              users-after (remove_marmot_tables like prefix) items3 items2 c2 runs'
                (remove_marmot_tables-Keeps like prefix c2) at2
              ∙ users-after (remove_marmot_triggers like prefix) items2 items c1 runs
                  (remove_marmot_triggers-Keeps like prefix c1) at1);
        },
        λ path other.
            lookup-insert_other bk path items3 f2.schemas other
            ∙ lookup-insert_other bk path items2 f1.schemas other
            ∙ lookup-insert_other bk path items f.schemas other,
      )

-- ===== src/Db/Backup.antt =====
-- `BackupTo` of db/sqlite.go, on the schemas of database files. `like` is the operator LIKE of SQLite.
pub mod Cleaned
use marmot.Base.{Bool, String, Option, none, some, List, [], ◌∷◌, string_key}
use marmot.Base.Maps.{Map, lookup, insert}
use marmot.Base.Errors.{Error, Result, ok, err, panic, library}
use marmot.Base.Act.{Act, pure, throw, ◌>>=◌, ◌>>◌}
use marmot.Db.Catalog.{SchemaItem, Catalog, PragmaRow, call}
use marmot.Db.Cdc.{remove_marmot_triggers, remove_marmot_tables}

-- The schema of each file, and the faults of the next calls.
pub record Files : Type 0 where
  pub schemas : Map String (List SchemaItem)
  pub faults : List (Option Error)

abbrev pub items_at : String → Map String (List SchemaItem) → List SchemaItem
items_at path schemas = items_or_none (lookup path schemas)
  where
    items_or_none : Option (List SchemaItem) → List SchemaItem
    items_or_none none = []
    items_or_none (some items) = items

-- The schema of one file, on which the statements of a connection to it act.
abbrev pub opened : String → Files → Catalog
opened path f = record { items = items_at path f.schemas; columns = []; faults = f.faults }

abbrev stored : {A : Type 0} → String → Files → Result A × Catalog → Result A × Files
stored path f (r, c) = (r, record { schemas = insert path c.items f.schemas; faults = c.faults })

unfoldable pub on_file : {A : Type 0} → String → Act Catalog A → Act Files A
on_file path m f = stored path f (m (opened path f))

-- A call that leaves the files.
abbrev used : Files → Result (Unit {0}) × Catalog → Result (Unit {0}) × Files
used f (r, c) = (r, record f { faults = c.faults })

unfoldable pub file_call : Act Files (Unit {0})
file_call f = used f (call (record { items = []; columns = []; faults = f.faults }))

-- `VACUUM main INTO path`, which writes a copy of the open database.
vacuum_into : String → String → Act Files (Unit {0})
unfolding file_call
vacuum_into from to =
    file_call >> λ f. (ok tt, record f { schemas = insert to (items_at from f.schemas) f.schemas })

module _ (like : String → String → Bool) (prefix : String) where
  -- Opens the database to be read, copies it, closes both handles, and opens the copy; its Marmot
  -- triggers and tables are removed, and a last vacuum drops what they held.
  unfoldable pub backup_to : String → String → Act Files (Unit {0})
  unfolding vacuum_into file_call on_file
  backup_to db_path bk_file_path =
      file_call
      >> vacuum_into db_path bk_file_path
      >> file_call
      >> file_call
      >> file_call
      >> on_file bk_file_path (remove_marmot_triggers like prefix)
      >> on_file bk_file_path (remove_marmot_tables like prefix)
      >> file_call

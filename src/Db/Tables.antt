-- ===== src/Db/Tables.antt =====
-- `getTableInfo`, `listDBTables` and `GetAllDBTables` of db/sqlite.go. `like` is the operator LIKE of
-- SQLite, with the pattern first.
pub mod HasKey
pub mod ReadOnly
use Prim.Native.String.{◌++◌ as ◌+++◌}
use marmot.Base.{
  String, Bool, true, false, ◌&&◌, ◌||◌, not, Option, none, some, List, [], ◌∷◌, ◌++◌, ltb,
  if◌then◌else◌, string_key,
}
use marmot.Base.Maps.{Map, lookup}
use marmot.Base.Errors.{Result, ok, err, panic}
use marmot.Base.Act.{Act, pure, ◌>>=◌, ◌>>◌}
use marmot.Db.Event.{ColumnInfo, nil}
use marmot.Db.Catalog.{SchemaItem, PragmaRow, Catalog, is_table, call, next_row, select_names}

abbrev pub marmot_prefix : String
marmot_prefix = "__marmot__"

-- A row that is scanned into a column.
abbrev pub scanned : PragmaRow → ColumnInfo
scanned r = record {
  name = r.name;
  type = r.type;
  not_null = r.not_null;
  default_value = r.default_value;
  primary_key_index = r.primary_key_index;
  is_primary_key = ltb 0 r.primary_key_index;
}

abbrev pub rowid_column : ColumnInfo
rowid_column = record {
  name = "rowid";
  type = "INT";
  not_null = true;
  default_value = nil;
  primary_key_index = 0;
  is_primary_key = true;
}

-- The columns that are read, and whether one of them is a key.
pub record TableInfo : Type 0 where
  pub columns : List ColumnInfo
  pub has_primary_key : Bool

-- The loop over the rows, each of which is scanned. Rows that fail to come end the loop without an error.
scan_rows : List PragmaRow → TableInfo → Act Catalog TableInfo
scan_rows [] t = next_row >>= λ _. pure t
scan_rows (r ∷ rows) t =
    let u : TableInfo = record {
      columns = t.columns ++ scanned r ∷ [];
      has_primary_key = (scanned r).is_primary_key || t.has_primary_key;
    } in
    next_row >>= λ more. if more then call >> scan_rows rows u else pure t

with_key : TableInfo → List ColumnInfo
with_key t = if t.has_primary_key then t.columns else t.columns ++ rowid_column ∷ []

abbrev pub rows_or_none : Option (List PragmaRow) → List PragmaRow
rows_or_none none = []
rows_or_none (some rows) = rows

-- What `pragma_table_info` gives; for a table that is not there it gives no row.
abbrev pub pragma : String → Catalog → List PragmaRow
pragma name c = rows_or_none (lookup name c.columns)

abbrev pub unread : TableInfo
unread = record { columns = []; has_primary_key = false }

read_rows : String → Act Catalog TableInfo
unfolding scan_rows
read_rows name c = scan_rows (pragma name c) unread c

unfoldable pub get_table_info : String → Act Catalog (List ColumnInfo)
unfolding read_rows with_key
get_table_info name = call >> call >> read_rows name >>= λ t. pure (with_key t)

module _ (like : String → String → Bool) where
  abbrev pub is_listed : SchemaItem → Bool
  is_listed i =
      is_table i.type && not (like "sqlite_%" i.name) && not (like (marmot_prefix +++ "%") i.name)

  list_db_tables : Act Catalog (List String)
  list_db_tables = select_names is_listed

  -- `GetAllDBTables`: one call opens the database, and the transaction begins and ends by one each.
  unfoldable pub get_all_db_tables : Act Catalog (List String)
  unfolding list_db_tables
  get_all_db_tables = call >> call >> (list_db_tables >>= λ names. call >> pure names)

-- ===== src/Db/Tables/ReadOnly.antt =====
-- `getTableInfo` of db/sqlite.go only reads the schema.
use marmot.Base.{String, arith, ◌||◌, List, [], ◌∷◌, ◌++◌, if◌then◌else◌}
use marmot.Base.Act.{pure, ◌>>◌}
use marmot.Base.Act.Keeps.{Keeps, pure-Keeps, if-Keeps, bind-Keeps, then-Keeps}
use marmot.Db.Catalog.{SchemaItem, PragmaRow, Catalog, call, next_row}
use marmot.Db.Tables.{
  TableInfo, scanned, read_rows, unread, scan_rows, with_key, pragma, get_table_info,
}

abbrev schema : Catalog → List SchemaItem
schema c = c.items

call-Keeps : Keeps schema call
unfolding call
call-Keeps c = ground arith

next_row-Keeps : Keeps schema next_row
unfolding next_row call
next_row-Keeps c = ground arith

scan_rows-Keeps : (rows : List PragmaRow) (t : TableInfo) → Keeps schema (scan_rows rows t)
unfolding scan_rows
scan_rows-Keeps [] t =
    bind-Keeps schema next_row (λ _. pure t) next_row-Keeps (λ _. pure-Keeps schema t)
scan_rows-Keeps (r ∷ rows) t =
    let u : TableInfo = record {
      columns = t.columns ++ scanned r ∷ [];
      has_primary_key = (scanned r).is_primary_key || t.has_primary_key;
    } in
    bind-Keeps schema next_row (λ more. if more then call >> scan_rows rows u else pure t)
      next_row-Keeps
      (λ more.
        if-Keeps schema more (call >> scan_rows rows u) (pure t)
          (then-Keeps schema call (scan_rows rows u) call-Keeps (scan_rows-Keeps rows u))
          (pure-Keeps schema t))

read_rows-Keeps : (name : String) → Keeps schema (read_rows name)
unfolding read_rows
read_rows-Keeps name c = scan_rows-Keeps (pragma name c) unread c

pub get_table_info-Keeps : (name : String) → Keeps (λ (c : Catalog). c.items) (get_table_info name)
unfolding get_table_info
get_table_info-Keeps name =
    bind-Keeps schema (call >> call >> read_rows name) (λ t. pure (with_key t))
      (then-Keeps schema (call >> call) (read_rows name)
        (then-Keeps schema call call call-Keeps call-Keeps) (read_rows-Keeps name))
      (λ t. pure-Keeps schema (with_key t))

-- ===== src/Db/Tables/HasKey.antt =====
-- The columns that `getTableInfo` of db/sqlite.go gives.
use marmot.Base.{
  List-cases, none, some, inl, inr, Bool-cases, String, ◌≡◌, refl, arith, Bool, true, false, ◌||◌,
  List, [], ◌∷◌, ◌++◌, map, if◌then◌else◌,
}
use mathlib.Core.List.{append_assoc, append-nil}
use marmot.Base.Errors.{Result, ok, err, panic}
use marmot.Base.Act.{pure, ◌>>=◌, ◌>>◌}
use marmot.Db.Event.{ColumnInfo}
use marmot.Db.Catalog.{Catalog, PragmaRow, call, next_row}
use marmot.Db.Tables.{
  TableInfo, scanned, scan_rows, read_rows, unread, with_key, rowid_column, pragma, get_table_info,
}

abbrev pub any_key : List ColumnInfo → Bool
any_key [] = false
any_key (c ∷ columns) = c.is_primary_key || any_key columns

call-calm : (c : Catalog) → c.faults ≡ [] → call c ≡ (ok tt, c)
unfolding call
call-calm c calm = ground (arith, calm)

next_row-calm : (c : Catalog) → c.faults ≡ [] → next_row c ≡ (ok true, c)
unfolding next_row
next_row-calm c calm = rw (call-calm c calm) refl

next_row-cases : (c : Catalog) → (more : Bool) × (d : Catalog) × (next_row c ≡ (ok more, d))
unfolding next_row call
next_row-cases c = elim (List-cases c.faults) [
  | inl e ↦ (true, c, ground (arith, e))
  | inr (none, faults, e) ↦ (true, record c { faults = faults }, ground (arith, e))
  | inr (some x, faults, e) ↦ (false, record c { faults = faults }, ground (arith, e))
]

any_key-append : (xs ys : List ColumnInfo) → any_key (xs ++ ys) ≡ (any_key xs || any_key ys)
any_key-append [] ys = refl
any_key-append (x ∷ xs) ys = ground (arith, any_key-append xs ys)

-- The flag says whether a column that was read is a key.
scan_rows-any_key :
    (rows : List PragmaRow) (t u : TableInfo) (c d : Catalog)
    → t.has_primary_key ≡ any_key t.columns
    → scan_rows rows t c ≡ (ok u, d)
    → u.has_primary_key ≡ any_key u.columns
unfolding scan_rows
scan_rows-any_key [] t u c d e h =
    let (more, c1, moved) = next_row-cases c in ground (arith, e, h, moved)
scan_rows-any_key (r ∷ rows) t u c d e h =
    let t' : TableInfo = record {
      columns = t.columns ++ scanned r ∷ [];
      has_primary_key = (scanned r).is_primary_key || t.has_primary_key;
    } in
    let flag : t'.has_primary_key ≡ any_key t'.columns =
      ground (arith, any_key-append t.columns (scanned r ∷ []), e) in
    let (more, c1, moved) = next_row-cases c in
    elim (Bool-cases more) [
      | inl goes ↦ ground (arith, h, moved, goes, scan_rows-any_key rows t' u (call c1).1 d flag)
      | inr ends ↦ ground (arith, e, h, moved, ends)
    ]

scan_rows-reads :
    (rows : List PragmaRow) (t : TableInfo) (c : Catalog)
    → c.faults ≡ []
    → scan_rows rows t c ≡ (
      ok (record {
        columns = t.columns ++ map scanned rows;
        has_primary_key = any_key (map scanned rows) || t.has_primary_key;
      }),
      c,
    )
unfolding scan_rows
scan_rows-reads [] t c calm = ground (arith, next_row-calm c calm, append-nil t.columns)
scan_rows-reads (r ∷ rows) t c calm = ground (
  arith,
  next_row-calm c calm,
  call-calm c calm,
  scan_rows-reads rows
      (record {
        columns = t.columns ++ scanned r ∷ [];
        has_primary_key = (scanned r).is_primary_key || t.has_primary_key;
      })
      c calm,
  append_assoc t.columns (scanned r ∷ []) (map scanned rows),
)

with_key-any_key :
    (t : TableInfo) → t.has_primary_key ≡ any_key t.columns → any_key (with_key t) ≡ true
unfolding with_key
with_key-any_key t flag = ground (arith, flag, any_key-append t.columns (rowid_column ∷ []))

with_key-result :
    (columns : List ColumnInfo) (d : Catalog) (x : Result TableInfo × Catalog)
    → ((u : TableInfo) (e : Catalog) → x ≡ (ok u, e) → u.has_primary_key ≡ any_key u.columns)
    → ((λ (c : Catalog). x) >>= λ t. pure (with_key t)) d ≡ (ok columns, d)
    → any_key columns ≡ true
with_key-result columns d (ok u, e) flag h = let key = with_key-any_key u (flag u e refl) in cc
with_key-result columns d (err x, e) flag h = cc
with_key-result columns d (panic m, e) flag h = cc

abbrev read_table : String → Catalog → Result TableInfo × Catalog
read_table name = call >> call >> read_rows name

read_table-any_key :
    (name : String) (c : Catalog) (u : TableInfo) (e : Catalog)
    → read_table name c ≡ (ok u, e)
    → u.has_primary_key ≡ any_key u.columns
unfolding read_rows
read_table-any_key name c u e h =
    let c' = (call (call c).1).1 in
    ground (arith, h, scan_rows-any_key (pragma name c') unread u c' e refl)

-- Whatever calls of the database fail, the columns that getTableInfo returns without an error have
-- one of the primary key.
pub get_table_info-any_key :
    (name : String) (columns : List ColumnInfo) (c d : Catalog)
    → get_table_info name c ≡ (ok columns, d)
    → any_key columns ≡ true
unfolding get_table_info
get_table_info-any_key name columns c d h =
    with_key-result columns d (read_table name c) (read_table-any_key name c) h

-- With no failing call: the columns are those of the table, and a rowid as their key if they have none.
get_table_info-reads :
    (name : String) (c : Catalog)
    → c.faults ≡ []
    → get_table_info name c ≡ (
      ok (
          if any_key (map scanned (pragma name c))
          then map scanned (pragma name c)
          else map scanned (pragma name c) ++ rowid_column ∷ []),
      c,
    )
unfolding get_table_info with_key read_rows
get_table_info-reads name c calm =
    ground (arith, call-calm c calm, scan_rows-reads (pragma name c) unread c calm)

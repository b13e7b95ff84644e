-- ===== src/Db/Replicate/Laws.antt =====
-- What the statements of `Replicate` of db/change_log.go do to the rows of the tables, as SQLite documents
-- them for tables whose only uniqueness constraint is the primary key.
use marmot.Base.{
  String, ◌≡◌, ◌&&◌, Option, none, some, List, [], if◌then◌else◌, Key, ◌==◌, string_key,
}
use marmot.Base.Maps.{lookup}
use marmot.Base.Errors.{ok}
use marmot.Db.Event.{Row, ColumnInfo}
use marmot.Db.Store.{SqliteStreamDb}
use marmot.Db.Replicate.{Engine, primary_keys}

-- `key_of` is the key that a row has in a table, as the engine compares keys, and `row_at` the row that
-- the tables hold under it.
pub record HasKeys {W D : Type 0} (conn : SqliteStreamDb W) (engine : Engine D) (K : Type 0)
    ⦃key : Key K⦄ : Type 0 where
  pub key_of : String → Row → K
  pub row_at : String → K → D → Option Row
  pub of_primary_keys :
      (table : String) (cols : List ColumnInfo) (row : Row)
      → lookup table conn.watch_tables_schema ≡ some cols
      → key_of table (primary_keys cols row []) ≡ key_of table row
  pub replaced :
      (table : String) (row : Row) (d d' : D) (t : String) (k : K)
      → engine.insert_or_replace table row d ≡ (ok tt, d')
      → row_at t k d' ≡ (if table == t && key_of table row == k then some row else row_at t k d)
  pub deleted :
      (table : String) (row : Row) (d d' : D) (t : String) (k : K)
      → engine.delete_where table row d ≡ (ok tt, d')
      → row_at t k d' ≡ (if table == t && key_of table row == k then none else row_at t k d)

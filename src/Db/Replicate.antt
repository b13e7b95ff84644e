-- ===== src/Db/Replicate.antt =====
-- `Replicate` of db/change_log.go: an event of another node is written into the tables. The tables are
-- what the database engine keeps, `D`, behind the two statements that the program executes.
pub mod Laws
pub mod Effect
pub mod Converge
use text.Mathlib.Text.{◌==◌ as str_eq}
use marmot.Base.{String, ◌||◌, Option, none, some, List, [], ◌∷◌, if◌then◌else◌, string_key}
use marmot.Base.Maps.{lookup, insert}
use marmot.Base.Errors.{Error, Result, ok, err, panic, sentinel, library, no_table_mapping}
use marmot.Db.Event.{Row, ColumnInfo, ChangeLogEvent, value_at}
use marmot.Db.Store.{SqliteStreamDb}

-- `INSERT OR REPLACE INTO table(…) VALUES (…)` and `DELETE FROM table WHERE …`. A statement that fails
-- may have changed the tables.
pub record Engine (D : Type 0) : Type 0 where
  pub insert_or_replace : String → Row → D → Result (Unit {0}) × D
  pub delete_where : String → Row → D → Result (Unit {0}) × D

-- The calls around the statement: the borrowed connection, the begin and the commit.
pub record TxFaults : Type 0 where
  pub borrow : Option Error
  pub begin : Option Error
  pub commit : Option Error

-- An open transaction: the tables as its statements have left them, and those it began with.
pub record Transaction (D : Type 0) : Type 0 where
  pub tables : D
  pub journal : D

-- The columns of the key with the row's values, on top of those collected so far.
unfoldable pub primary_keys : List ColumnInfo → Row → Row → Row
primary_keys [] row ret = ret
primary_keys (col ∷ cols) row ret =
    primary_keys cols row
      (if col.is_primary_key then insert col.name (value_at row col.name) ret else ret)

module _ {W D : Type 0} (conn : SqliteStreamDb W) (engine : Engine D) where
  -- None where the source returns a nil map.
  unfoldable pub get_primary_key_map : ChangeLogEvent → Option Row
  unfolding primary_keys
  get_primary_key_map event = elim (lookup event.table_name conn.watch_tables_schema) [
    | none ↦ none
    | some cols ↦ some (primary_keys cols event.row [])
  ]

  replicate_upsert : ChangeLogEvent → D → Result (Unit {0}) × D
  replicate_upsert event d = engine.insert_or_replace event.table_name event.row d

  replicate_delete : ChangeLogEvent → Row → D → Result (Unit {0}) × D
  replicate_delete event pk_map d = engine.delete_where event.table_name pk_map d

  unfoldable pub replicate_row : ChangeLogEvent → Row → D → Result (Unit {0}) × D
  unfolding replicate_upsert replicate_delete
  replicate_row event pk_map d =
      if str_eq event.type "insert" || str_eq event.type "update"
      then replicate_upsert event d
      else if str_eq event.type "delete"
      then replicate_delete event pk_map d
      else (err (library "invalid operation type"), d)

  begin_transaction : D → Transaction D
  begin_transaction d = record { tables = d; journal = d }

  -- The body of the transaction.
  in_transaction : ChangeLogEvent → Transaction D → Result (Unit {0}) × Transaction D
  in_transaction event tx = elim (get_primary_key_map event) [
    | none ↦ (err (sentinel no_table_mapping), tx)
    | some pk_map ↦
        let (r, d) = replicate_row event pk_map tx.tables in (r, record tx { tables = d })
  ]

  rollback : Transaction D → D
  rollback tx = tx.journal

  commit : Transaction D → D
  commit tx = tx.tables

  -- The end of `WithTx`: a body that returns without an error is committed, and a failure or a panic of
  -- it rolls back, as a commit that fails does.
  end_transaction : Option Error → Result (Unit {0}) × Transaction D → Result (Unit {0}) × D
  unfolding rollback commit
  end_transaction none (ok _, tx) = (ok tt, commit tx)
  end_transaction (some e) (ok _, tx) = (err e, rollback tx)
  end_transaction fault (err e, tx) = (err e, rollback tx)
  end_transaction fault (panic m, tx) = (panic m, rollback tx)

  pub consume_replication_event : TxFaults → ChangeLogEvent → D → Result (Unit {0}) × D
  unfolding begin_transaction in_transaction end_transaction
  consume_replication_event faults event d = elim faults.borrow [
    | some e ↦ (err e, d)
    | none ↦ elim faults.begin [
      | some e ↦ (err e, d)
      | none ↦ end_transaction faults.commit (in_transaction event (begin_transaction d))
    ]
  ]

  unfoldable pub replicate : TxFaults → ChangeLogEvent → D → Result (Unit {0}) × D
  unfolding consume_replication_event
  replicate faults event d = consume_replication_event faults event d

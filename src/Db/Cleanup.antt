-- ===== src/Db/Cleanup.antt =====
-- `CleanupChangeLogs` of db/change_log.go: old published changes are deleted from the change logs.
pub mod Kept
use marmot.Base.{
  ℕ, ◌+◌, ◌-◌, String, Bool, ◌&&◌, not, Option, none, some, List, [], ◌∷◌, map, keep_if, leb,
  length, string_key,
}
use marmot.Base.Maps.{Map, lookup, insert}
use marmot.Base.Int.{int_beq}
use marmot.Base.Errors.{Result, ok, err, panic}
use marmot.Db.Store.{
  SqliteStreamDb, Store, M, call, ◌>>=◌, LogRow, LogTable, published, log_of, no_such_table,
}

-- `state = 1 AND created_at <= before`
is_old : ℕ → LogRow → Bool
is_old before row = int_beq row.state published && leb row.created_at before

module _ {W : Type 0} (conn : SqliteStreamDb W) where
  delete_old : ℕ → String → LogTable → Store W → ℕ × Store W
  unfolding is_old
  delete_old before table_name t s =
      let rows = keep_if (λ row. not (is_old before row)) t.rows in
      (
        length t.rows - length rows,
        record s { logs = insert (log_of conn table_name) (record t { rows = rows }) s.logs },
      )

  cleanup_table : ℕ → String → M W ℕ
  unfolding delete_old
  cleanup_table before table_name s = elim (lookup (log_of conn table_name) s.logs) [
    | none ↦ (err no_such_table, s)
    | some t ↦ let (count, s') = delete_old before table_name t s in (ok count, s')
  ]

  -- The loop over the watched tables, with the total so far.
  cleanup_tables : ℕ → List String → ℕ → M W ℕ
  unfolding cleanup_table
  cleanup_tables before [] total s = (ok total, s)
  cleanup_tables before (name ∷ names) total s =
      (call >>= λ _.
      cleanup_table before name >>= λ count. cleanup_tables before names (total + count))
        s

  abbrev names_of : {A : Type 0} → Map String A → List String
  names_of [] = []
  names_of ((name, a) ∷ m) = name ∷ names_of m

  -- `CleanupChangeLogs`, which borrows a connection first.
  pub cleanup_change_logs : ℕ → M W ℕ
  unfolding cleanup_tables
  cleanup_change_logs before =
      call >>= λ _. cleanup_tables before (names_of conn.watch_tables_schema) 0

-- ===== src/Db/Cleanup/Kept.antt =====
-- What `CleanupChangeLogs` of db/change_log.go leaves: pending changes are never deleted.
use marmot.Base.{
  ℕ, String, ◌≡◌, refl, ◌∙◌, ◌+◌, arith, inl, inr, not, Option, none, some, List, [], ◌∷◌, keep_if,
  Option-cases, eq_iff, string_key,
}
use marmot.Base.Maps.{lookup, lookup-insert}
use marmot.Base.Errors.{Error, Result, ok, err, panic}
use marmot.Db.Store.{
  SqliteStreamDb, Store, call, ◌>>=◌, LogRow, LogTable, GlobalChangeLogEntry, log_of, find_pending,
}
use marmot.Db.ChangeLog.Events.{row_for}
use marmot.Db.Cleanup.{
  is_old, delete_old, cleanup_table, cleanup_tables, names_of, cleanup_change_logs,
}

find_pending-is_old :
    (id before : ℕ) (rows : List LogRow)
    → find_pending id (keep_if (λ row. not (is_old before row)) rows) ≡ find_pending id rows
unfolding find_pending is_old
find_pending-is_old id before [] = refl
find_pending-is_old id before (row ∷ rows) =
    let ih = find_pending-is_old id before rows in ground arith

module _ {W : Type 0} (conn : SqliteStreamDb W) (c : GlobalChangeLogEntry) where
  -- The same global entries, and the same pending row for the entry `c`.
  abbrev pub Keeps : Store W → Store W → Type 0
  Keeps s s' = (s'.global ≡ s.global) × (row_for conn s'.logs c ≡ row_for conn s.logs c)

  delete_old-Keeps :
      (before : ℕ) (name : String) (t : LogTable) (s : Store W)
      → lookup (log_of conn name) s.logs ≡ some t
      → Keeps s (delete_old conn before name t s).1
  unfolding delete_old
  delete_old-Keeps before name t s found =
      let rows = keep_if (λ row. not (is_old before row)) t.rows in
      (
        refl,
        ground (
          arith,
          lookup-insert (log_of conn name) (log_of conn c.table_name) (record t { rows = rows })
              s.logs,
          eq_iff (log_of conn name) (log_of conn c.table_name),
          find_pending-is_old c.change_table_id before t.rows,
        ),
      )

  cleanup_table-Keeps :
      (before : ℕ) (name : String) (s : Store W) → Keeps s (cleanup_table conn before name s).1
  unfolding cleanup_table
  cleanup_table-Keeps before name s = elim (Option-cases (lookup (log_of conn name) s.logs)) [
    | inl e ↦ rw (e, cleanup_table) (refl, refl)
    | inr (t, e) ↦ rw (e, cleanup_table) (delete_old-Keeps before name t s e)
  ]

  call_from-Keeps :
      (s : Store W) (faults : List (Option Error)) → Keeps s (call (record s { faults = faults })).1
  unfolding call
  call_from-Keeps s [] = (refl, refl)
  call_from-Keeps s (none ∷ faults) = (refl, refl)
  call_from-Keeps s (some e ∷ faults) = (refl, refl)

  call-Keeps : (s : Store W) → Keeps s (call s).1
  call-Keeps s = call_from-Keeps s s.faults

  branch-Keeps :
      {A B : Type 0} (s : Store W) (run : Result A × Store W) (f : A → Store W → Result B × Store W)
      → Keeps s run.1
      → ((a : A) (s' : Store W) → Keeps s' (f a s').1)
      → Keeps s (((λ (x : Store W). run) >>= f) s).1
  branch-Keeps s (ok a, s') f first rest =
      let (same, row) = rest a s' in (same ∙ first.0, row ∙ first.1)
  branch-Keeps s (err e, s') f first rest = first
  branch-Keeps s (panic m, s') f first rest = first

  -- One action after another.
  bind-Keeps :
      {A B : Type 0} (m : Store W → Result A × Store W) (f : A → Store W → Result B × Store W)
      (s : Store W)
      → Keeps s (m s).1
      → ((a : A) (s' : Store W) → Keeps s' (f a s').1)
      → Keeps s ((m >>= f) s).1
  bind-Keeps m f s first rest = branch-Keeps s (m s) f first rest

  cleanup_tables-Keeps :
      (before : ℕ) (names : List String) (total : ℕ) (s : Store W)
      → Keeps s (cleanup_tables conn before names total s).1
  unfolding cleanup_tables
  cleanup_tables-Keeps before [] total s = (refl, refl)
  cleanup_tables-Keeps before (name ∷ names) total s =
      let rest = λ (count : ℕ). cleanup_tables conn before names (total + count) in
      bind-Keeps call (λ _. cleanup_table conn before name >>= rest) s (call-Keeps s)
        (λ _ s'.
          bind-Keeps (cleanup_table conn before name) rest s' (cleanup_table-Keeps before name s')
            (λ count s₂. cleanup_tables-Keeps before names (total + count) s₂))

  -- Whatever calls of the database fail, CleanupChangeLogs leaves the global log as it is, and
  -- every entry of it the pending row that it had, so no change that is still to be published is
  -- deleted.
  pub cleanup_change_logs-Keeps :
      (before : ℕ) (s : Store W) → Keeps s (cleanup_change_logs conn before s).1
  unfolding cleanup_change_logs
  cleanup_change_logs-Keeps before s =
      let names = names_of conn conn.watch_tables_schema in
      bind-Keeps call (λ _. cleanup_tables conn before names 0) s (call-Keeps s)
        (λ _ s'. cleanup_tables-Keeps before names 0 s')

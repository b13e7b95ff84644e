-- ===== src/Db/ChangeLog/Unheard.antt =====
-- Rows that fail to come in `consumeChangeLogs` of db/change_log.go.
use marmot.Base.{
  ℕ, zero, suc, ◌+◌, ◌<◌, String, ◌≡◌, refl, arith, Option, none, some, List, [], ◌∷◌, true, false,
  keep_if, map, take, string_key, nat_key,
}
use marmot.Base.Maps.{Map, lookup}
use marmot.Base.Errors.{Error, ok}
use marmot.Db.Event.{Row}
use marmot.Db.Store.{
  SqliteStreamDb, Store, LogRow, LogTable, GlobalChangeLogEntry, call, calls, next_row, log_of,
  find_pending,
}
use marmot.Db.ChangeLog.{
  ChangeLogEntry, entry_of, associate, row_of, has, get_change_entry, fetch_change_rows, deliver,
  consume_change_logs, mark_change_published, after_mark, after_consume, after_get, mark_round,
  publish_round, next, publish_changes, proceed, after_scan, after_count, count_changes,
  get_global_changes, count_and_publish, order_by_id, unlocked, publish_change_log,
}
use marmot.Db.ChangeLog.Rounds.{marked}
use marmot.Db.ChangeLog.Events.{is_published, is_published_self}

-- So many calls succeed first.
abbrev pub nones : ℕ → List (Option Error) → List (Option Error)
nones zero faults = faults
nones (suc n) faults = none ∷ nones n faults

module _ {W : Type 0} (conn : SqliteStreamDb W) where
  abbrev with_faults : List (Option Error) → Store W → Store W
  with_faults faults s = record s { faults = faults }

  deliver_unheard :
      (table_name : String) (change_map : Map ℕ ChangeLogEntry) (rows : List (ℕ × Row)) (e : Error)
      (s : Store W)
      → deliver conn table_name change_map rows (with_faults (some e ∷ []) s)
        ≡ (ok tt, with_faults [] s)
  unfolding deliver next_row call
  deliver_unheard table_name change_map [] e s = refl
  deliver_unheard table_name change_map (row ∷ rows) e s = refl

  module _ (c : GlobalChangeLogEntry) (t : LogTable) (row : LogRow) (e : Error) (s : Store W)
      (found : lookup (log_of conn c.table_name) s.logs ≡ some t)
      (there : find_pending c.change_table_id t.rows ≡ some row) where
    get_change_entry_passes :
        (faults : List (Option Error))
        → get_change_entry conn c (with_faults (nones 2 faults) s)
          ≡ (ok (some (entry_of row)), with_faults faults s)
    unfolding get_change_entry calls call
    get_change_entry_passes faults = ground (arith, found, there)

    consume_unheard :
        consume_change_logs conn c.table_name
          (entry_of row ∷ [])
          (with_faults (nones 2 (some e ∷ [])) s)
        ≡ (ok tt, with_faults [] s)
    unfolding consume_change_logs fetch_change_rows calls call
    consume_unheard = ground (
      arith,
      found,
      deliver_unheard c.table_name (associate conn (entry_of row ∷ []) [])
          (map (row_of conn c.table_name) (keep_if (λ r. has (row.id ∷ []) r.id) t.rows)) e s,
    )

    mark_passes : mark_change_published conn c (with_faults [] s) ≡ (ok tt, marked conn c t [] s)
    unfolding mark_change_published calls call marked
    mark_passes = ground (arith, found)

    round_unheard :
        publish_round conn c (with_faults (nones 4 (some e ∷ [])) s)
        ≡ next (record (marked conn c t [] s) { published_count = s.published_count + 1 })
    unfolding publish_round after_get after_consume mark_round after_mark marked
    round_unheard =
        ground
          (arith, get_change_entry_passes (nones 2 (some e ∷ [])), consume_unheard, mark_passes)

  take_nothing : (n : ℕ) → take {A = GlobalChangeLogEntry} n [] ≡ []
  take_nothing zero = refl
  take_nothing (suc n) = refl

  -- The store after the change was marked.
  abbrev store_after : GlobalChangeLogEntry → LogTable → Store W → Store W
  store_after c t s = record (marked conn c t [] s) {
    published_count = s.published_count + 1;
    pending_publish = 1;
  }

  abbrev alone : GlobalChangeLogEntry → Error → Store W → Store W
  alone c e s = record s { global = c ∷ []; faults = nones 8 (some e ∷ []); publish_lock = true }

  count_and_publish_unheard :
      (c : GlobalChangeLogEntry) (t : LogTable) (row : LogRow) (e : Error) (s : Store W) (limit : ℕ)
      → lookup (log_of conn c.table_name) s.logs ≡ some t
      → find_pending c.change_table_id t.rows ≡ some row
      → 0 < limit
      → count_and_publish conn limit (alone c e s) ≡ (ok tt, store_after c t (alone c e s))
  unfolding count_and_publish after_count after_scan count_changes get_global_changes calls call
      order_by_id publish_changes proceed marked
  count_and_publish_unheard c t row e s zero found there more = absurd (omega arith)
  count_and_publish_unheard c t row e s (suc limit) found there more =
      let s' : Store W = record (alone c e s) { pending_publish = 1 } in
      ground (arith, take_nothing limit, round_unheard c t row e s' found there)

  -- With the lock free, and a single entry in the global log, whose row is pending: if the first
  -- eight calls of the database succeed and the ninth, the Next that should bring the change's row,
  -- fails with any error, then publishChangeLog with a positive limit removes the entry and marks
  -- its row as published all the same, while what the callback acts on stays as it was.
  pub publish_change_log_unheard :
      (c : GlobalChangeLogEntry) (t : LogTable) (row : LogRow) (e : Error) (s : Store W) (limit : ℕ)
      → lookup (log_of conn c.table_name) s.logs ≡ some t
      → find_pending c.change_table_id t.rows ≡ some row
      → 0 < limit
      → s.publish_lock ≡ false
      → s.global ≡ c ∷ []
      → s.faults ≡ nones 8 (some e ∷ [])
      → let s' = (publish_change_log conn limit s).1 in
        (s'.world ≡ s.world) × (s'.global ≡ []) × (is_published conn s'.logs c ≡ true)
  unfolding publish_change_log unlocked marked
  publish_change_log_unheard c t row e s limit found there more free only faults =
      let run = count_and_publish_unheard c t row e s limit found there more in
      let same : record s { publish_lock = true } ≡ alone c e s = ground (arith, only, faults) in
      rw (free, same, run) (refl, ground arith, is_published_self conn s.logs c t row there)

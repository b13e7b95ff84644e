-- ===== src/Db/ChangeLog/Calm.antt =====
-- One round of `publishChangeLog` of db/change_log.go while no call of the database fails.
use marmot.Base.{
  suc, true, zero, take, length, ℕ, ◌≡◌, refl, sym, ap, inl, inr, arith, false, none, some, List,
  [], ◌∷◌, nat_beq, nat_beq_iff, subst, All, Pairwise, Bool-cases, keep_if, string_key, nat_key,
}
use marmot.Base.Maps.{lookup, insert}
use marmot.Base.Errors.{Result, ok}
use marmot.Db.Event.{ChangeLogEvent}
use marmot.Db.Store.{
  SqliteStreamDb, Store, LogRow, LogTable, GlobalChangeLogEntry, log_of, find_pending,
}
use marmot.Db.Store.Calls.{calls_calm, call_calm, next_row_calm}
use marmot.Db.Store.Links.{find_pending-id}
use marmot.Db.ChangeLog.{
  order_by_id, get_global_changes, count_changes, entry_of, event_of, get_change_entry, has, row_of,
  fetch_change_rows, consume_change_logs, mark_change_published, after_consume, after_get,
  publish_round,
}
use marmot.Db.ChangeLog.Rounds.{marked}

-- The ids of a table's rows are a key.
abbrev pub IsKeyed : List LogRow → Type 0
IsKeyed rows = Pairwise (λ a b. nat_beq a.id b.id ≡ false) rows

none_with_id :
    (id : ℕ) (row : LogRow) (rows : List LogRow)
    → row.id ≡ id
    → All (λ r. nat_beq row.id r.id ≡ false) rows
    → keep_if (λ r. has (id ∷ []) r.id) rows ≡ []
none_with_id id row [] e h = refl
none_with_id id row (r ∷ rows) e h =
    let rest = none_with_id id row rows e h.1 in let here = h.0 in ground arith

find_pending-none :
    (id : ℕ) (row : LogRow) (rows : List LogRow)
    → row.id ≡ id
    → All (λ r. nat_beq row.id r.id ≡ false) rows
    → find_pending id rows ≡ none
unfolding find_pending
find_pending-none id row [] e h = refl
find_pending-none id row (r ∷ rows) e h =
    let rest = find_pending-none id row rows e h.1 in let here = h.0 in ground arith

-- A row is the only one with its id.
selected :
    (id : ℕ) (rows : List LogRow) (row : LogRow)
    → IsKeyed rows
    → find_pending id rows ≡ some row
    → keep_if (λ r. has (id ∷ []) r.id) rows ≡ row ∷ []
unfolding find_pending
selected id [] row keyed found = cc
selected id (r ∷ rows) row keyed found = elim (Bool-cases (nat_beq r.id id)) [
  | inl e ↦
      let same = (nat_beq_iff r.id id).0 e in
      let others = none_with_id id r rows same keyed.0 in
      let nowhere = find_pending-none id r rows same keyed.0 in ground arith
  | inr e ↦ let rest = selected id rows row keyed.1 in ground (arith, selected id rows row keyed.1)
]

module _ {W : Type 0} (conn : SqliteStreamDb W) where
  -- The event of a change row.
  pub event_for : GlobalChangeLogEntry → LogRow → ChangeLogEvent
  unfolding row_of event_of
  event_for c row =
      let (id, values) = row_of conn c.table_name row in
      event_of conn c.table_name id row.type values

  module _ (c : GlobalChangeLogEntry) (t : LogTable) (row : LogRow) (s : Store W)
      (found : lookup (log_of conn c.table_name) s.logs ≡ some t)
      (there : find_pending c.change_table_id t.rows ≡ some row) (keyed : IsKeyed t.rows)
      (calm : s.faults ≡ []) where
    get_change_entry_calm : get_change_entry conn c s ≡ (ok (some (entry_of row)), s)
    unfolding get_change_entry
    get_change_entry_calm = ground (arith, calls_calm 2 s calm)

    fetch_calm :
        fetch_change_rows conn c.table_name (row.id ∷ []) s
        ≡ (ok (row_of conn c.table_name row ∷ []), s)
    unfolding fetch_change_rows
    fetch_calm =
        let same = find_pending-id c.change_table_id t.rows row there in
        let only =
          subst (λ id. keep_if (λ r. has (id ∷ []) r.id) t.rows ≡ row ∷ []) (sym same)
            (selected c.change_table_id t.rows row keyed there) in
        ground (arith, calls_calm 2 s calm)

    pub mark_calm : mark_change_published conn c s ≡ (ok tt, marked conn c t s.faults s)
    unfolding mark_change_published marked
    mark_calm = ground (arith, calls_calm 5 s calm)

    module _ (f : ChangeLogEvent → W → Result (Unit {0}) × W)
        (watched : conn.on_change ≡ some f) where
      -- The callback is given the row's event.
      consume_calm :
          consume_change_logs conn c.table_name (entry_of row ∷ []) s
          ≡ ((f (event_for c row) s.world).0, record s { world = (f (event_for c row) s.world).1 })
      unfolding consume_change_logs event_for lookup insert
      consume_calm = ground (
        arith,
        fetch_calm,
        next_row_calm s calm,
        call_calm s calm,
        next_row_calm (record s { world = (f (event_for c row) s.world).1 }) calm,
      )

      pub publish_round_calm :
          publish_round conn c s
          ≡ after_consume conn c (
            (f (event_for c row) s.world).0,
            record s { world = (f (event_for c row) s.world).1 },
          )
      unfolding publish_round after_get
      publish_round_calm = rw get_change_entry_calm (ap (after_consume conn c) consume_calm)

module _ {W : Type 0} (conn : SqliteStreamDb W) where
  pub scan_calm :
      (limit : ℕ) (s : Store W)
      → s.faults ≡ []
      → get_global_changes conn limit s ≡ (ok (take limit (order_by_id s.global)), s)
  unfolding get_global_changes
  scan_calm limit s calm = ground (arith, calls_calm 2 s calm)

  pub count_calm : (s : Store W) → s.faults ≡ [] → count_changes conn s ≡ (ok (length s.global), s)
  unfolding count_changes
  count_calm s calm = ground (arith, calls_calm 2 s calm)

  pub none_scanned :
      (limit : ℕ) (global : List GlobalChangeLogEntry)
      → nat_beq (length global) 0 ≡ true
      → take limit (order_by_id global) ≡ []
  unfolding order_by_id
  none_scanned zero global h = refl
  none_scanned (suc limit) [] h = refl
  none_scanned (suc limit) (x ∷ xs) h = absurd (ground arith)

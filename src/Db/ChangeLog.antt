-- ===== src/Db/ChangeLog.antt =====
-- The change log of db/change_log.go: what the triggers record, and how `publishChangeLog` hands it on
-- and marks it.
pub mod Order
pub mod Invariant
pub mod Rounds
pub mod Sound
pub mod Calm
pub mod Events
pub mod InOrder
pub mod Queue
pub mod Conserved
pub mod Waits
pub mod Unheard
use marmot.Base.{
  ℕ, suc, ◌+◌, String, Bool, true, false, ◌&&◌, ◌||◌, not, Option, none, some, List, [], ◌∷◌, ◌++◌,
  map, if◌then◌else◌, nat_beq, leb, ltb, length, take, keep_if, string_key, nat_key,
}
use Prim.Native.String.{◌++◌ as str_append}
use marmot.Base.Maps.{Map, lookup, insert}
use marmot.Base.Int.{ℤ, pos, negsuc}
use marmot.Base.Decimal.{decimal}
use marmot.Base.Errors.{
  Error, Result, ok, err, panic, errors_is, log_not_ready_to_publish, canceled,
}
use marmot.Db.Event.{Value, Row, ColumnInfo, ChangeLogEvent, value_at}
use marmot.Db.Store.{
  SqliteStreamDb, Store, M, call, calls, next_row, ◌>>=◌, LogRow, LogTable, GlobalChangeLogEntry,
  ChangeLogState, pending, published, log_of, no_such_table, find_pending, set_published,
}

-- A scanned row of a change log, `changeLogEntry`.
pub record ChangeLogEntry : Type 0 where
  pub id : ℕ
  pub type : String
  pub state : String

-- A state as the scan of a text column reads it.
abbrev state_text : ChangeLogState → String
state_text (pos n) = decimal n
state_text (negsuc n) = str_append "-" (decimal (suc n))

abbrev pub entry_of : LogRow → ChangeLogEntry
entry_of row = record { id = row.id; type = row.type; state = state_text row.state }

-- `ORDER BY id ASC`
pub insert_by_id : GlobalChangeLogEntry → List GlobalChangeLogEntry → List GlobalChangeLogEntry
insert_by_id g [] = g ∷ []
insert_by_id g (h ∷ hs) = if leb g.id h.id then g ∷ h ∷ hs else h ∷ insert_by_id g hs

pub order_by_id : List GlobalChangeLogEntry → List GlobalChangeLogEntry
unfolding insert_by_id
order_by_id [] = []
order_by_id (g ∷ gs) = insert_by_id g (order_by_id gs)

abbrev val_column : String → String
val_column name = str_append "val_" name

abbrev columns_of : Option (List ColumnInfo) → List ColumnInfo
columns_of none = []
columns_of (some cols) = cols

-- `id IN (…)`
abbrev has : List ℕ → ℕ → Bool
has [] id = false
has (i ∷ ids) id = nat_beq i id || has ids id

module _ {W : Type 0} (conn : SqliteStreamDb W) where
  -- The row that a trigger inserts into the table's change log.
  log_row : String → String → Row → ℕ → ℕ → LogRow
  log_row table_name type row now id =
      let cols = columns_of (lookup table_name conn.watch_tables_schema) in
      record {
        id = id;
        values = map (λ c. (val_column c.name, value_at row c.name)) cols;
        type = type;
        created_at = now;
        state = pending;
      }

  -- The two inserts of a trigger: the row in the change log, and its id with the table's name in the
  -- global one.
  insert_change : String → LogTable → LogRow → Store W → Store W
  insert_change table_name t new s =
      let t' : LogTable = record { rows = t.rows ++ new ∷ []; next_id = suc t.next_id } in
      let entry : GlobalChangeLogEntry = record {
        id = s.next_global;
        change_table_id = t.next_id;
        table_name = table_name;
      } in
      record s {
        logs = insert (log_of conn table_name) t' s.logs;
        global = s.global ++ entry ∷ [];
        next_global = suc s.next_global;
      }

  -- The trigger of a table. With no change log there is no trigger, and a connection that has the
  -- function `marmot_version`, as those of the pool do, does not set it off.
  unfoldable pub capture : ℕ → String → String → Row → ℕ → Store W → Store W
  unfolding insert_change log_row
  capture versions table_name type row now s =
      if ltb versions 1
      then elim (lookup (log_of conn table_name) s.logs) [
        | none ↦ s
        | some t ↦ insert_change table_name t (log_row table_name type row now t.next_id) s
      ]
      else s

  pub count_changes : M W ℕ
  count_changes = calls 2 >>= λ _ s. (ok (length s.global), s)

  pub get_global_changes : ℕ → M W (List GlobalChangeLogEntry)
  get_global_changes limit = calls 2 >>= λ _ s. (ok (take limit (order_by_id s.global)), s)

  select_pending : GlobalChangeLogEntry → M W (Option ChangeLogEntry)
  select_pending change s = elim (lookup (log_of conn change.table_name) s.logs) [
    | none ↦ (err no_such_table, s)
    | some t ↦ elim (find_pending change.change_table_id t.rows) [
      | none ↦ (ok none, s)
      | some row ↦ (ok (some (entry_of row)), s)
    ]
  ]

  get_change_entry : GlobalChangeLogEntry → M W (Option ChangeLogEntry)
  unfolding select_pending
  get_change_entry change = calls 2 >>= λ _. select_pending change

  -- The selected columns of a change row under the names of the table's columns. The id goes beside
  -- the row, from which the source deletes it again.
  row_of : String → LogRow → ℕ × Row
  row_of table_name row = (
    row.id,
    map (λ c. (c.name, value_at row.values (val_column c.name)))
        (columns_of (lookup table_name conn.watch_tables_schema)),
  )

  select_rows : String → List ℕ → M W (List (ℕ × Row))
  unfolding row_of
  select_rows table_name ids s = elim (lookup (log_of conn table_name) s.logs) [
    | none ↦ (err no_such_table, s)
    | some t ↦ (ok (map (row_of table_name) (keep_if (λ row. has ids row.id) t.rows)), s)
  ]

  fetch_change_rows : String → List ℕ → M W (List (ℕ × Row))
  unfolding select_rows
  fetch_change_rows table_name ids = calls 2 >>= λ _. select_rows table_name ids

  event_of : String → ℕ → String → Row → ChangeLogEvent
  event_of table_name id type row = record {
    id = id;
    type = type;
    table_name = table_name;
    row = row;
    table_info = columns_of (lookup table_name conn.watch_tables_schema);
  }

  -- The change row's callback. A row that no given entry stands for is a nil pointer.
  deliver_row : String → Map ℕ ChangeLogEntry → ℕ × Row → M W (Unit {0})
  unfolding event_of
  deliver_row table_name change_map (id, row) s = elim (lookup id change_map) [
    | none ↦ (panic "nil change log entry", s)
    | some entry ↦ elim conn.on_change [
      | none ↦ (ok tt, s)
      | some on_change ↦
          let (r, world) = on_change (event_of table_name id entry.type row) s.world in
          (r, record s { world = world })
    ]
  ]

  -- The loop over the rows, each of which is fetched before its callback. Rows that fail to come end
  -- the loop without an error.
  deliver : String → Map ℕ ChangeLogEntry → List (ℕ × Row) → M W (Unit {0})
  unfolding deliver_row
  deliver table_name change_map [] s = (next_row >>= λ _ s. (ok tt, s)) s
  deliver table_name change_map (row ∷ rows) s =
      (next_row >>= λ more. elim more [
        | false ↦ λ s. (ok tt, s)
        | true ↦ call >>= λ _.
            deliver_row table_name change_map row >>= λ _. deliver table_name change_map rows
      ])
        s

  -- `lo.Associate`: a later entry of one id wins.
  associate : List ChangeLogEntry → Map ℕ ChangeLogEntry → Map ℕ ChangeLogEntry
  associate [] m = m
  associate (c ∷ cs) m = associate cs (insert c.id c m)

  consume_change_logs : String → List ChangeLogEntry → M W (Unit {0})
  unfolding fetch_change_rows associate deliver
  consume_change_logs table_name changes =
      fetch_change_rows table_name (map (λ c. c.id) changes) >>= λ rows.
      deliver table_name (associate changes []) rows

  -- The transaction's two statements, once nothing has failed.
  apply_published : GlobalChangeLogEntry → M W (Unit {0})
  apply_published change s = elim (lookup (log_of conn change.table_name) s.logs) [
    | none ↦ (err no_such_table, s)
    | some t ↦
        let t' : LogTable = record t { rows = set_published change.change_table_id t.rows } in
        (
          ok tt,
          record s {
            logs = insert (log_of conn change.table_name) t' s.logs;
            global = keep_if (λ g. not (nat_beq g.id change.id)) s.global;
          },
        )
  ]

  -- Borrow, begin, update, delete and commit; a failure rolls back.
  pub mark_change_published : GlobalChangeLogEntry → M W (Unit {0})
  unfolding apply_published
  mark_change_published change = calls 5 >>= λ _. apply_published change

  -- What one round of the loop comes to: the next round, the end of the loop, or a panic.
  pub data Round : Type 0 where
    next finished : Store W → Round
    panicked : String → Store W → Round

  -- An error of the marking is only logged.
  pub after_mark : Result (Unit {0}) × Store W → Round
  after_mark (ok _, s) = next (record s { published_count = s.published_count + 1 })
  after_mark (err e, s) = next (record s { published_count = s.published_count + 1 })
  after_mark (panic m, s) = panicked m s

  pub mark_round : GlobalChangeLogEntry → Store W → Round
  unfolding after_mark
  mark_round change s = after_mark (mark_change_published change s)

  -- A change is marked after its callback, also if the callback failed, but for two errors, which end
  -- the loop.
  pub after_consume : GlobalChangeLogEntry → Result (Unit {0}) × Store W → Round
  unfolding mark_round
  after_consume change (ok _, s) = mark_round change s
  after_consume change (panic m, s) = panicked m s
  after_consume change (err e, s) =
      if errors_is e log_not_ready_to_publish || errors_is e canceled
      then finished s
      else mark_round change s

  after_get : GlobalChangeLogEntry → Result (Option ChangeLogEntry) × Store W → Round
  unfolding after_consume
  after_get change (err e, s) = finished s
  after_get change (panic m, s) = panicked m s
  after_get change (ok none, s) =
      panicked "Global change log row not found in corresponding table" s
  after_get change (ok (some entry), s) =
      after_consume change (consume_change_logs change.table_name (entry ∷ []) s)

  pub publish_round : GlobalChangeLogEntry → Store W → Round
  unfolding after_get
  publish_round change s = after_get change (get_change_entry change s)

  proceed : Round → (Store W → Result (Unit {0}) × Store W) → Result (Unit {0}) × Store W
  proceed (next s) rest = rest s
  proceed (finished s) rest = (ok tt, s)
  proceed (panicked m s) rest = (panic m, s)

  pub publish_changes : List GlobalChangeLogEntry → M W (Unit {0})
  unfolding proceed publish_round
  publish_changes [] s = (ok tt, s)
  publish_changes (change ∷ changes) s = proceed (publish_round change s) (publish_changes changes)

  after_scan : Result (List GlobalChangeLogEntry) × Store W → Result (Unit {0}) × Store W
  unfolding publish_changes
  after_scan (ok changes, s) = publish_changes changes s
  after_scan (err e, s) = (ok tt, s)
  after_scan (panic m, s) = (panic m, s)

  after_count : ℕ → Result ℕ × Store W → Result (Unit {0}) × Store W
  unfolding after_scan
  after_count limit (ok count, s) =
      let s' : Store W = record s { pending_publish = count } in
      if nat_beq count 0 then (ok tt, s') else after_scan (get_global_changes limit s')
  after_count limit (err e, s) = (ok tt, s)
  after_count limit (panic m, s) = (panic m, s)

  -- The body of `publishChangeLog` under the lock. Errors are logged, so it returns or panics. The test
  -- of the source on a negative length never holds.
  count_and_publish : ℕ → M W (Unit {0})
  unfolding after_count
  count_and_publish limit s = after_count limit (count_changes s)

  unlocked : Result (Unit {0}) × Store W → Result (Unit {0}) × Store W
  unlocked (r, s) = (r, record s { publish_lock = false })

  -- `publishChangeLog`; the lock is released on every way out, also by a panic.
  pub publish_change_log : ℕ → M W (Unit {0})
  unfolding count_and_publish unlocked
  publish_change_log limit s =
      if s.publish_lock
      then (ok tt, s)
      else unlocked (count_and_publish limit (record s { publish_lock = true }))

-- ===== src/Db/Replicate/Effect.antt =====
-- What one event that `Replicate` of db/change_log.go accepts does to the rows.
use text.Mathlib.Text.{◌==◌ as str_eq}
use marmot.Base.{
  String, ◌≡◌, ◌≢◌, refl, inl, inr, arith, Bool, true, false, ◌&&◌, ◌||◌, Option, none, some,
  eq_iff, List, [], if◌then◌else◌, Key, ◌==◌, string_key, Option-cases, Bool-cases,
}
use marmot.Base.Maps.{lookup}
use marmot.Base.Errors.{ok, Result-cases}
use marmot.Db.Event.{Row, ColumnInfo, ChangeLogEvent}
use marmot.Db.Store.{SqliteStreamDb}
use marmot.Db.Replicate.{
  Engine, TxFaults, primary_keys, get_primary_key_map, replicate_row, replicate_upsert,
  replicate_delete, begin_transaction, in_transaction, end_transaction, rollback, commit,
  consume_replication_event, replicate,
}
use marmot.Db.Replicate.Laws.{HasKeys}

not_delete :
    (type : String)
    → (str_eq type "insert" || str_eq type "update") ≡ true
    → str_eq type "delete" ≡ false
not_delete type h = elim (Bool-cases (str_eq type "insert")) [
  | inl e ↦ rw ((eq_iff type "insert").0 e) refl
  | inr e ↦ rw ((eq_iff type "update").0 (rw e at (h))) refl
]

module _ {W D K : Type 0} ⦃key : Key K⦄ (conn : SqliteStreamDb W) (engine : Engine D)
    (keys : HasKeys conn engine K) where
  -- The event is about the key `k` of the table `t`.
  abbrev pub touches : String → K → ChangeLogEvent → Bool
  touches t k event = event.table_name == t && keys.key_of event.table_name event.row == k

  -- The row that an event leaves under its key.
  abbrev pub row_after : ChangeLogEvent → Option Row
  row_after event = if str_eq event.type "delete" then none else some event.row

  replicate_row-effect :
      (event : ChangeLogEvent) (cols : List ColumnInfo) (d d' : D) (t : String) (k : K)
      → lookup event.table_name conn.watch_tables_schema ≡ some cols
      → replicate_row conn engine event (primary_keys cols event.row []) d ≡ (ok tt, d')
      → keys.row_at t k d' ≡ (if touches t k event then row_after event else keys.row_at t k d)
  unfolding replicate_row replicate_upsert replicate_delete
  replicate_row-effect event cols d d' t k known h =
      elim (Bool-cases (str_eq event.type "insert" || str_eq event.type "update")) [
        | inl writes ↦
            let kept : str_eq event.type "delete" ≡ false = not_delete event.type writes in
            rw kept (keys.replaced event.table_name event.row d d' t k (rw writes at (h)))
        | inr other ↦ elim (Bool-cases (str_eq event.type "delete")) [
          | inl deletes ↦
              rw (deletes, ← keys.of_primary_keys event.table_name cols event.row known)
                (keys.deleted event.table_name _ d d' t k (rw (other, deletes) at (h)))
          | inr neither ↦ absurd (ground arith)
        ]
      ]

  replicate_accepted :
      (event : ChangeLogEvent) (faults : TxFaults) (d : D)
      → (replicate conn engine faults event d).0 ≡ ok tt
      → (cols : List ColumnInfo) × (lookup event.table_name conn.watch_tables_schema ≡ some cols)
        × (replicate_row conn engine event (primary_keys cols event.row []) d
            ≡ (ok tt, (replicate conn engine faults event d).1))
  unfolding replicate consume_replication_event begin_transaction in_transaction end_transaction
      commit get_primary_key_map
  replicate_accepted event faults d h =
      elim (Option-cases (lookup event.table_name conn.watch_tables_schema)) [
        | inl e ↦ absurd (ground arith)
        | inr (cols, e) ↦
            let run = replicate_row conn engine event (primary_keys cols event.row []) d in
            elim (Result-cases run.0) [
              | inl (d', w) ↦ (cols, e, ground (arith, w))
              | inr (inl (x, w)) ↦ absurd (ground (arith, w))
              | inr (inr (m, w)) ↦ absurd (ground (arith, w))
            ]
      ]

  -- Over an engine whose statements act on the rows by key, an event that Replicate accepts leaves
  -- its row under its key, or none if it is a deletion, and all other rows as they were.
  pub replicate-effect :
      (event : ChangeLogEvent) (faults : TxFaults) (d : D) (t : String) (k : K)
      → (replicate conn engine faults event d).0 ≡ ok tt
      → keys.row_at t k (replicate conn engine faults event d).1
        ≡ (if touches t k event then row_after event else keys.row_at t k d)
  replicate-effect event faults d t k h =
      let (cols, known, wrote) = replicate_accepted event faults d h in
      replicate_row-effect event cols d _ t k known wrote

module _ {W D : Type 0} (conn : SqliteStreamDb W) (engine : Engine D) where
  -- A Replicate that does not succeed, because a call or the commit fails, or because a statement
  -- that may have changed the tables fails or panics, leaves the tables as they were.
  pub replicate_failed :
      (event : ChangeLogEvent) (faults : TxFaults) (d : D)
      → (replicate conn engine faults event d).0 ≢ ok tt
      → (replicate conn engine faults event d).1 ≡ d
  unfolding replicate consume_replication_event begin_transaction in_transaction end_transaction
      rollback
  replicate_failed event faults d failed = ground arith

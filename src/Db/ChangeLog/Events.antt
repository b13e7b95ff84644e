-- ===== src/Db/ChangeLog/Events.antt =====
-- The events of the entries of the global log of db/change_log.go, and what marking one entry leaves of
-- the others.
use marmot.Base.{
  ℕ, String, ◌≡◌, refl, ◌∙◌, inl, inr, arith, eq_iff, Bool, true, false, not, ◌&&◌, ◌||◌, Option,
  none, some, List, [], ◌∷◌, nat_beq, All, Bool-cases, Option-cases, keep_if, string_key,
}
use marmot.Base.Maps.{Map, lookup, insert, lookup-insert}
use marmot.Base.Int.{int_beq}
use marmot.Base.Errors.{Result, ok, err, panic, errors_is, log_not_ready_to_publish, canceled}
use marmot.Db.Event.{ChangeLogEvent}
use marmot.Db.Store.{
  SqliteStreamDb, Store, LogRow, LogTable, GlobalChangeLogEntry, log_of, find_pending,
  set_published, published,
}
use marmot.Db.Store.Links.{is_linked, same_link, find_pending-set_published}
use marmot.Db.ChangeLog.{after_mark, mark_round, mark_change_published, after_consume}
use marmot.Db.ChangeLog.Invariant.{Apart}
use marmot.Db.ChangeLog.Calm.{IsKeyed, event_for}

find_pending-set_published_self :
    (id : ℕ) (rows : List LogRow) → find_pending id (set_published id rows) ≡ none
unfolding find_pending set_published
find_pending-set_published_self id [] = refl
find_pending-set_published_self id (row ∷ rows) =
    ground (arith, find_pending-set_published_self id rows)

ids-set_published :
    (k id : ℕ) (rows : List LogRow)
    → All (λ b. nat_beq k b.id ≡ false) rows
    → All (λ b. nat_beq k b.id ≡ false) (set_published id rows)
unfolding set_published
ids-set_published k id [] h = tt
ids-set_published k id (row ∷ rows) h = elim (Bool-cases (nat_beq row.id id)) [
  | inl e ↦ rw e (h.0, ids-set_published k id rows h.1)
  | inr e ↦ rw e (h.0, ids-set_published k id rows h.1)
]

set_published-IsKeyed :
    (id : ℕ) (rows : List LogRow) → IsKeyed rows → IsKeyed (set_published id rows)
unfolding set_published
set_published-IsKeyed id [] h = tt
set_published-IsKeyed id (row ∷ rows) h = elim (Bool-cases (nat_beq row.id id)) [
  | inl e ↦ rw e (ids-set_published row.id id rows h.0, set_published-IsKeyed id rows h.1)
  | inr e ↦ rw e (ids-set_published row.id id rows h.0, set_published-IsKeyed id rows h.1)
]

-- The row with this id is there and published.
abbrev published_row : ℕ → List LogRow → Bool
published_row id [] = false
published_row id (row ∷ rows) =
    (nat_beq row.id id && int_beq row.state published) || published_row id rows

published_row-set_published_self :
    (id : ℕ) (rows : List LogRow) (row : LogRow)
    → find_pending id rows ≡ some row
    → published_row id (set_published id rows) ≡ true
unfolding find_pending set_published
published_row-set_published_self id [] row h = cc
published_row-set_published_self id (r ∷ rows) row h = elim (Bool-cases (nat_beq r.id id)) [
  | inl e ↦ ground (arith, e)
  | inr e ↦ ground (arith, e, published_row-set_published_self id rows row)
]

published_row-set_published :
    (id k : ℕ) (rows : List LogRow)
    → published_row id rows ≡ true
    → published_row id (set_published k rows) ≡ true
unfolding set_published
published_row-set_published id k [] h = h
published_row-set_published id k (r ∷ rows) h =
    let ih = published_row-set_published id k rows in
    elim (Bool-cases (nat_beq r.id k)) [ inl e ↦ ground (arith, e) | inr e ↦ ground (arith, e) ]

module _ {W : Type 0} (conn : SqliteStreamDb W) where
  -- Every change log's ids are a key.
  abbrev pub AreKeyed : Map String LogTable → Type 0
  AreKeyed logs = (log : String) (t : LogTable) → lookup log logs ≡ some t → IsKeyed t.rows

  abbrev pending_in : Option LogTable → ℕ → Option LogRow
  pending_in none id = none
  pending_in (some t) id = find_pending id t.rows

  abbrev published_in : Option LogTable → ℕ → Bool
  published_in none id = false
  published_in (some t) id = published_row id t.rows

  -- The row that a global entry stands for is there, in the state published.
  abbrev pub is_published : Map String LogTable → GlobalChangeLogEntry → Bool
  is_published logs c = published_in (lookup (log_of conn c.table_name) logs) c.change_table_id

  -- The pending row that a global entry stands for.
  abbrev pub row_for : Map String LogTable → GlobalChangeLogEntry → Option LogRow
  row_for logs c = pending_in (lookup (log_of conn c.table_name) logs) c.change_table_id

  abbrev with_event :
      GlobalChangeLogEntry → Option LogRow → List ChangeLogEvent → List ChangeLogEvent
  with_event c none es = es
  with_event c (some row) es = event_for conn c row ∷ es

  -- The events of the entries' rows, in the entries' order.
  abbrev pub events : Map String LogTable → List GlobalChangeLogEntry → List ChangeLogEvent
  events logs [] = []
  events logs (c ∷ cs) = with_event c (row_for logs c) (events logs cs)

  -- The global entries that are none of the changes.
  abbrev pub without :
      List GlobalChangeLogEntry → List GlobalChangeLogEntry → List GlobalChangeLogEntry
  without global [] = global
  without global (c ∷ cs) = without (keep_if (λ g. not (nat_beq g.id c.id)) global) cs

  abbrev pub logs_after :
      GlobalChangeLogEntry → LogTable → Map String LogTable → Map String LogTable
  logs_after c t logs =
      insert (log_of conn c.table_name) (record t { rows = set_published c.change_table_id t.rows })
        logs

  pub row_for-Apart :
      (logs : Map String LogTable) (c d : GlobalChangeLogEntry) (t : LogTable)
      → lookup (log_of conn c.table_name) logs ≡ some t
      → same_link conn c d ≡ false
      → row_for (logs_after c t logs) d ≡ row_for logs d
  row_for-Apart logs c d t found apart = ground (
    arith,
    lookup-insert (log_of conn c.table_name) (log_of conn d.table_name)
        (record t { rows = set_published c.change_table_id t.rows }) logs,
    eq_iff (log_of conn c.table_name) (log_of conn d.table_name),
    find_pending-set_published d.change_table_id c.change_table_id t.rows,
  )

  -- Marking a row never makes another one pending.
  pub row_for-none :
      (logs : Map String LogTable) (c d : GlobalChangeLogEntry) (t : LogTable)
      → lookup (log_of conn c.table_name) logs ≡ some t
      → row_for logs d ≡ none
      → row_for (logs_after c t logs) d ≡ none
  row_for-none logs c d t found gone = elim (Bool-cases (same_link conn c d)) [
    | inl e ↦
        let same_id : d.change_table_id ≡ c.change_table_id = ground arith in
        ground (
          arith,
          lookup-insert (log_of conn c.table_name) (log_of conn d.table_name)
              (record t { rows = set_published c.change_table_id t.rows }) logs,
          eq_iff (log_of conn c.table_name) (log_of conn d.table_name),
          find_pending-set_published_self c.change_table_id t.rows,
        )
    | inr e ↦ row_for-Apart logs c d t found e ∙ gone
  ]

  pub row_for_self :
      (logs : Map String LogTable) (c : GlobalChangeLogEntry) (t : LogTable)
      → row_for (logs_after c t logs) c ≡ none
  row_for_self logs c t = ground (
    arith,
    lookup-insert (log_of conn c.table_name) (log_of conn c.table_name)
        (record t { rows = set_published c.change_table_id t.rows }) logs,
    eq_iff (log_of conn c.table_name) (log_of conn c.table_name),
    find_pending-set_published_self c.change_table_id t.rows,
  )

  pub is_published_self :
      (logs : Map String LogTable) (c : GlobalChangeLogEntry) (t : LogTable) (row : LogRow)
      → find_pending c.change_table_id t.rows ≡ some row
      → is_published (logs_after c t logs) c ≡ true
  is_published_self logs c t row there = ground (
    arith,
    lookup-insert (log_of conn c.table_name) (log_of conn c.table_name)
        (record t { rows = set_published c.change_table_id t.rows }) logs,
    eq_iff (log_of conn c.table_name) (log_of conn c.table_name),
    published_row-set_published_self c.change_table_id t.rows row there,
  )

  -- Marking a row leaves those published that were.
  pub is_published-logs_after :
      (logs : Map String LogTable) (c d : GlobalChangeLogEntry) (t : LogTable)
      → lookup (log_of conn c.table_name) logs ≡ some t
      → is_published logs d ≡ true
      → is_published (logs_after c t logs) d ≡ true
  is_published-logs_after logs c d t found h = ground (
    arith,
    lookup-insert (log_of conn c.table_name) (log_of conn d.table_name)
        (record t { rows = set_published c.change_table_id t.rows }) logs,
    eq_iff (log_of conn c.table_name) (log_of conn d.table_name),
    published_row-set_published d.change_table_id c.change_table_id t.rows,
  )

  pub AreKeyed-logs_after :
      (logs : Map String LogTable) (c : GlobalChangeLogEntry) (t : LogTable)
      → lookup (log_of conn c.table_name) logs ≡ some t
      → AreKeyed logs
      → AreKeyed (logs_after c t logs)
  AreKeyed-logs_after logs c t found keyed log u h =
      let t' : LogTable = record t { rows = set_published c.change_table_id t.rows } in
      elim (Bool-cases (string_key.same (log_of conn c.table_name) log)) [
        | inl e ↦
            let same : u ≡ t' =
              ground (arith, lookup-insert (log_of conn c.table_name) log t' logs) in
            rw same (
              set_published-IsKeyed c.change_table_id t.rows
                (keyed (log_of conn c.table_name) t found))
        | inr e ↦ keyed log u (ground (arith, lookup-insert (log_of conn c.table_name) log t' logs))
      ]

  pub events-Apart :
      (logs : Map String LogTable) (c : GlobalChangeLogEntry) (cs : List GlobalChangeLogEntry)
      (t : LogTable)
      → lookup (log_of conn c.table_name) logs ≡ some t
      → All (Apart conn c) cs
      → events (logs_after c t logs) cs ≡ events logs cs
  events-Apart logs c [] t found apart = refl
  events-Apart logs c (d ∷ cs) t found apart =
      rw (row_for-Apart logs c d t found apart.0.1, events-Apart logs c cs t found apart.1) refl

  pub linked_row :
      (logs : Map String LogTable) (c : GlobalChangeLogEntry) (t : LogTable)
      → lookup (log_of conn c.table_name) logs ≡ some t
      → is_linked conn logs c ≡ true
      → (row : LogRow) × (find_pending c.change_table_id t.rows ≡ some row)
  linked_row logs c t found linked = elim (Option-cases (find_pending c.change_table_id t.rows)) [
    | inl e ↦ absurd (ground arith)
    | inr there ↦ there
  ]

  -- A callback's verdict that does not end the loop.
  abbrev pub GoesOn : Result (Unit {0}) → Type 0
  GoesOn (ok _) = Unit
  GoesOn (err e) = (errors_is e log_not_ready_to_publish || errors_is e canceled) ≡ false
  GoesOn (panic m) = ⊥

  pub goes_on :
      (c : GlobalChangeLogEntry) (r : Result (Unit {0})) (s : Store W)
      → GoesOn r
      → after_consume conn c (r, s) ≡ after_mark conn (mark_change_published conn c s)
  unfolding after_consume mark_round
  goes_on c (ok _) s h = refl
  goes_on c (err e) s h = rw h refl
  goes_on c (panic m) s h = absurd h

-- ===== src/Db/ChangeLog/Rounds.antt =====
-- `publishChangeLog` of db/change_log.go keeps the invariant of the change log, and does not panic.
use marmot.Base.{
  ℕ, String, ◌≡◌, ◌≢◌, refl, ◌⊎◌, inl, inr, arith, true, ◌||◌, not, Option, some, List, [], ◌∷◌,
  nat_beq, All, Bool-cases, Option-cases, keep_if, string_key, nat_key, map,
}
use marmot.Base.Maps.{Map, lookup, insert}
use marmot.Base.Errors.{
  Error, Result, ok, err, panic, Result-cases, errors_is, log_not_ready_to_publish, canceled,
}
use marmot.Db.Event.{Row, ChangeLogEvent}
use marmot.Db.Store.{
  SqliteStreamDb, Store, LogRow, LogTable, GlobalChangeLogEntry, log_of, find_pending,
  set_published, no_such_table,
}
use marmot.Db.Store.Calls.{calls-Called, call_from, next_row_from}
use marmot.Db.Store.Links.{is_linked}
use marmot.Db.ChangeLog.{
  ChangeLogEntry, entry_of, event_of, get_change_entry, has, row_of, fetch_change_rows, deliver_row,
  deliver, associate, consume_change_logs, mark_change_published, Round, next, finished, panicked,
  mark_round, after_consume, after_get, publish_round,
}
use marmot.Db.ChangeLog.Invariant.{IsLinked, Waiting, mark-Waiting}

module _ {W : Type 0} (conn : SqliteStreamDb W) where
  -- The state after a round: the rest of the queue still waits, or the loop is over.
  abbrev pub Keeps : List GlobalChangeLogEntry → Round conn → Type 0
  Keeps changes (next s) = Waiting conn changes s
  Keeps changes (finished s) = IsLinked conn s
  Keeps changes (panicked m s) = ⊥

  behind :
      (c : GlobalChangeLogEntry) (changes : List GlobalChangeLogEntry) (s : Store W)
      → Waiting conn (c ∷ changes) s
      → Waiting conn changes s
  behind c changes s w = record {
    all = w.all;
    linked = w.linked.1;
    apart = w.apart.1;
    others = w.others.1;
  }

  -- A linked change has a change log.
  pub linked_log :
      (c : GlobalChangeLogEntry) (logs : Map String LogTable)
      → is_linked conn logs c ≡ true
      → (t : LogTable) × (lookup (log_of conn c.table_name) logs ≡ some t)
  linked_log c logs linked = elim (Option-cases (lookup (log_of conn c.table_name) logs)) [
    | inl e ↦ absurd (ground arith)
    | inr found ↦ found
  ]

  unfoldable pub marked : GlobalChangeLogEntry → LogTable → List (Option Error) → Store W → Store W
  marked c t faults s = record s {
    logs =
        insert (log_of conn c.table_name)
          (record t { rows = set_published c.change_table_id t.rows }) s.logs;
    global = keep_if (λ g. not (nat_beq g.id c.id)) s.global;
    faults = faults;
  }

  mark-cases :
      (c : GlobalChangeLogEntry) (t : LogTable) (s : Store W)
      → lookup (log_of conn c.table_name) s.logs ≡ some t
      → ((faults : List (Option Error)) × (mark_change_published conn c s
            ≡ (ok tt, marked c t faults s)))
        ⊎ ((e : Error) × (faults : List (Option Error)) × (mark_change_published conn c s
              ≡ (err e, record s { faults = faults })))
  unfolding mark_change_published marked
  mark-cases c t s found = elim (calls-Called 5 s) [
    | inl (faults, h) ↦ inl (faults, ground arith)
    | inr (e, faults, h) ↦ inr (e, faults, ground arith)
  ]

  mark_round-Keeps :
      (c : GlobalChangeLogEntry) (changes : List GlobalChangeLogEntry) (s : Store W)
      → Waiting conn (c ∷ changes) s
      → Keeps changes (mark_round conn c s)
  unfolding mark_round marked
  mark_round-Keeps c changes s w =
      let (t, found) = linked_log c s.logs w.linked.0 in
      elim (mark-cases c t s found) [
        | inl (faults, h) ↦ rw (h, mark_round) (mark-Waiting conn c changes t s faults found w)
        | inr (e, faults, h) ↦ rw (h, mark_round) (behind c changes s w)
      ]

  after_consume-Keeps :
      (c : GlobalChangeLogEntry) (changes : List GlobalChangeLogEntry) (r : Result (Unit {0}))
      (s : Store W)
      → ((m : String) → r ≢ panic m)
      → Waiting conn (c ∷ changes) s
      → Keeps changes (after_consume conn c (r, s))
  unfolding after_consume
  after_consume-Keeps c changes (ok _) s calm w = mark_round-Keeps c changes s w
  after_consume-Keeps c changes (panic m) s calm w = absurd (calm m refl)
  after_consume-Keeps c changes (err e) s calm w =
      elim (Bool-cases (errors_is e log_not_ready_to_publish || errors_is e canceled)) [
        | inl h ↦ rw h w.all
        | inr h ↦ rw h (mark_round-Keeps c changes s w)
      ]

  -- The callback does not panic.
  abbrev pub IsSteady : Type 0
  IsSteady =
      (f : ChangeLogEvent → W → Result (Unit {0}) × W)
      → conn.on_change ≡ some f
      → (e : ChangeLogEvent) (w : W) (m : String) → (f e w).0 ≢ panic m

  -- Delivering changes the callback's world alone.
  abbrev Delivered : Store W → Result (Unit {0}) × Store W → Type 0
  Delivered s run =
      (r : Result (Unit {0})) × (world : W) × (faults : List (Option Error)) × (run
        ≡ (r, record s { world = world; faults = faults }))
      × ((m : String) → r ≢ panic m)

  get_change_entry-cases :
      (c : GlobalChangeLogEntry) (s : Store W)
      → is_linked conn s.logs c ≡ true
      → ((entry : ChangeLogEntry) × (faults : List (Option Error)) × (get_change_entry conn c s
            ≡ (ok (some entry), record s { faults = faults })))
        ⊎ ((e : Error) × (faults : List (Option Error)) × (get_change_entry conn c s
              ≡ (err e, record s { faults = faults })))
  unfolding get_change_entry
  get_change_entry-cases c s linked =
      let (t, found) = linked_log c s.logs linked in
      elim (Option-cases (find_pending c.change_table_id t.rows)) [
        | inl none_there ↦ absurd (ground arith)
        | inr (row, there) ↦ elim (calls-Called 2 s) [
          | inl (faults, h) ↦ inl (entry_of row, faults, ground arith)
          | inr (e, faults, h) ↦ inr (e, faults, ground arith)
        ]
      ]

  abbrev Known : Map ℕ ChangeLogEntry → ℕ × Row → Type 0
  Known change_map row = (entry : ChangeLogEntry) × (lookup row.0 change_map ≡ some entry)

  deliver_row-Delivered :
      (table_name : String) (change_map : Map ℕ ChangeLogEntry) (row : ℕ × Row) (s : Store W)
      (faults : List (Option Error))
      → IsSteady
      → Known change_map row
      → Delivered s (deliver_row conn table_name change_map row (record s { faults = faults }))
  unfolding deliver_row
  deliver_row-Delivered table_name change_map (id, row) s faults steady (entry, known) =
      elim (Option-cases conn.on_change) [
        | inl e ↦ (ok tt, s.world, faults, ground arith, λ m h. cc)
        | inr (f, e) ↦
            let run = f (event_of conn table_name id entry.type row) s.world in
            (run.0, run.1, faults, ground arith, steady f e _ s.world)
      ]

  deliver-Delivered :
      (table_name : String) (change_map : Map ℕ ChangeLogEntry) (rows : List (ℕ × Row))
      (s : Store W) (world : W) (faults : List (Option Error))
      → IsSteady
      → All (Known change_map) rows
      → Delivered s
          (deliver conn table_name change_map rows (record s { world = world; faults = faults }))
  unfolding deliver
  deliver-Delivered table_name change_map [] s world faults steady known =
      let (more, left, e) = next_row_from (record s { world = world }) faults in
      (ok tt, world, left, ground (arith, e), λ m h. cc)
  deliver-Delivered table_name change_map (row ∷ rows) s world faults steady known =
      let (more, left, e) = next_row_from (record s { world = world }) faults in
      elim (Bool-cases more) [
        | inr ends ↦ (ok tt, world, left, ground (arith, e, ends), λ m h. cc)
        | inl goes ↦ elim (call_from (record s { world = world }) left) [
          | inr (x, left', fails) ↦ (err x, world, left', ground (arith, e, goes, fails), λ m h. cc)
          | inl (left', fetched) ↦
              let (r, world', faults', d, calm) =
                deliver_row-Delivered table_name change_map row (record s { world = world }) left'
                  steady known.0 in
              elim (Result-cases r) [
                | inl (_, ran) ↦
                    let (r', w', f', d', calm') =
                      deliver-Delivered table_name change_map rows s world' faults' steady
                        known.1 in
                    (r', w', f', ground (arith, e, goes, fetched, d, ran, d'), calm')
                | inr (inl (x, ran)) ↦
                    (r, world', faults', ground (arith, e, goes, fetched, d, ran), calm)
                | inr (inr (x, ran)) ↦ absurd (calm x ran)
              ]
        ]
      ]

  selected-Known :
      (table_name : String) (entry : ChangeLogEntry) (rows : List LogRow)
      → All
          (Known (associate conn (entry ∷ []) []))
          (map (row_of conn table_name) (keep_if (λ row. has (entry.id ∷ []) row.id) rows))
  unfolding associate lookup insert row_of
  selected-Known table_name entry [] = tt
  selected-Known table_name entry (row ∷ rows) = elim (Bool-cases (has (entry.id ∷ []) row.id)) [
    | inl e ↦ rw e ((entry, ground arith), selected-Known table_name entry rows)
    | inr e ↦ rw e (selected-Known table_name entry rows)
  ]

  fetch-cases :
      (table_name : String) (entry : ChangeLogEntry) (s : Store W)
      → ((rows : List (ℕ × Row)) × (faults : List (Option Error)) × (fetch_change_rows conn
              table_name
              (entry.id ∷ [])
              s
            ≡ (ok rows, record s { faults = faults }))
          × All (Known (associate conn (entry ∷ []) [])) rows)
        ⊎ ((e : Error) × (faults : List (Option Error)) × (fetch_change_rows conn table_name
                (entry.id ∷ [])
                s
              ≡ (err e, record s { faults = faults })))
  unfolding fetch_change_rows
  fetch-cases table_name entry s = elim (calls-Called 2 s) [
    | inl (faults, h) ↦ elim (Option-cases (lookup (log_of conn table_name) s.logs)) [
      | inl e ↦ inr (no_such_table, faults, ground arith)
      | inr (t, e) ↦
          let rows =
            map (row_of conn table_name) (keep_if (λ row. has (entry.id ∷ []) row.id) t.rows) in
          inl (rows, faults, ground arith, selected-Known table_name entry t.rows)
    ]
    | inr (e, faults, h) ↦ inr (e, faults, ground arith)
  ]

  consume-Delivered :
      (table_name : String) (entry : ChangeLogEntry) (s : Store W)
      → IsSteady
      → Delivered s (consume_change_logs conn table_name (entry ∷ []) s)
  unfolding consume_change_logs
  consume-Delivered table_name entry s steady = elim (fetch-cases table_name entry s) [
    | inl (rows, faults, h, known) ↦
        let (r, world, faults', e, calm) =
          deliver-Delivered table_name (associate conn (entry ∷ []) []) rows s s.world faults steady
            known in
        (r, world, faults', ground arith, calm)
    | inr (x, faults, h) ↦ (err x, s.world, faults, ground arith, λ m p. cc)
  ]

  pub publish_round-Keeps :
      (c : GlobalChangeLogEntry) (changes : List GlobalChangeLogEntry) (s : Store W)
      → IsSteady
      → Waiting conn (c ∷ changes) s
      → Keeps changes (publish_round conn c s)
  unfolding publish_round after_get
  publish_round-Keeps c changes s steady w = elim (get_change_entry-cases c s w.linked.0) [
    | inl (entry, faults, h) ↦
        let (r, world, faults', e, calm) =
          consume-Delivered c.table_name entry (record s { faults = faults }) steady in
        rw (h, e) (after_consume-Keeps c changes r _ calm w)
    | inr (x, faults, h) ↦ rw h w.all
  ]

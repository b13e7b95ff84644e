-- ===== src/Db/ChangeLog/Invariant.antt =====
-- The invariant of the change log of db/change_log.go, under which publishing does not panic.
use marmot.Base.{
  ℕ, ◌<◌, String, ◌≡◌, refl, ◌⊎◌, inl, inr, arith, eq_iff, true, false, not, Option, some, List,
  ◌∷◌, nat_beq, ltb, Bool-cases, All, Pairwise, Option-cases, keep_if, All-map, All-both,
  All-append, All-keep_if, Pairwise-keep_if, Pairwise-append, string_key, nat_key,
}
use marmot.Base.Maps.{Map, lookup, insert}
use marmot.Base.Errors.{Error}
use marmot.Db.Event.{Row}
use marmot.Base.Int.{int_beq}
use marmot.Db.Store.{
  pending, SqliteStreamDb, Store, LogRow, LogTable, GlobalChangeLogEntry, log_of, set_published,
}
use marmot.Db.Store.Links.{
  is_linked, same_link, is_linked-set_published, is_linked-append, same_link_sym,
}
use marmot.Db.ChangeLog.{insert_change, capture}

module _ {W : Type 0} (conn : SqliteStreamDb W) where
  -- Two entries with different ids and different rows.
  abbrev pub Apart : GlobalChangeLogEntry → GlobalChangeLogEntry → Type 0
  Apart a b = (nat_beq a.id b.id ≡ false) × (same_link conn a b ≡ false)

  -- Every global entry has a pending row of its own in its table's change log.
  pub record LinksHold (logs : Map String LogTable) (global : List GlobalChangeLogEntry)
      (next_global : ℕ) : Type 0 where
    pub linked : All (λ g. is_linked conn logs g ≡ true) global
    pub apart : Pairwise Apart global
    pub fresh : All (λ g. g.id < next_global) global

  abbrev pub IsLinked : Store W → Type 0
  IsLinked s = LinksHold s.logs s.global s.next_global

  pub Apart-sym : (a b : GlobalChangeLogEntry) → Apart a b → Apart b a
  Apart-sym a b h = (ground arith, same_link_sym conn a b h.1)

  below_fresh :
      (logs : Map String LogTable) (t : LogTable) (log : String) (n : ℕ)
      (g new : GlobalChangeLogEntry)
      → lookup log logs ≡ some t
      → is_linked conn logs g ≡ true
      → g.id < n
      → new.id ≡ n
      → new.change_table_id ≡ t.next_id
      → log_of conn new.table_name ≡ log
      → Apart g new
  below_fresh logs t log n g new found linked lt new_id new_row new_log =
      (ground arith, ground (arith, eq_iff (log_of conn g.table_name) (log_of conn new.table_name)))

  insert_change-IsLinked :
      (table_name : String) (t : LogTable) (new : LogRow) (s : Store W)
      → lookup (log_of conn table_name) s.logs ≡ some t
      → new.id ≡ t.next_id
      → int_beq new.state pending ≡ true
      → IsLinked s
      → IsLinked (insert_change conn table_name t new s)
  unfolding insert_change
  insert_change-IsLinked table_name t new s found fresh waiting h =
      let (kept, linked) =
        is_linked-append conn s.logs t new (log_of conn table_name) found fresh waiting in
      record {
        linked = All-append _ s.global _ (All-map _ _ s.global kept h.linked) (linked, tt);
        apart = Pairwise-append Apart s.global _ h.apart (
            All-both _ _ _ s.global
              (λ g l lt.
                below_fresh s.logs t (log_of conn table_name) s.next_global g _ found l lt refl refl
                  refl)
              h.linked h.fresh);
        fresh =
            All-append _ s.global _ (All-map _ _ s.global (λ g lt. omega arith) h.fresh)
              (omega arith, tt);
      }

  -- What a trigger records, or does not record on a connection of the pool, keeps every global
  -- entry linked to a pending row of its own.
  pub capture-IsLinked :
      (versions : ℕ) (table_name type : String) (row : Row) (now : ℕ) (s : Store W)
      → IsLinked s
      → IsLinked (capture conn versions table_name type row now s)
  unfolding capture
  capture-IsLinked versions table_name type row now s h = elim (Bool-cases (ltb versions 1)) [
    | inr own ↦ rw (own, capture) h
    | inl other ↦ elim (Option-cases (lookup (log_of conn table_name) s.logs)) [
      | inl e ↦ rw (other, e, capture) h
      | inr (t, e) ↦ rw (other, e, capture) (insert_change-IsLinked table_name t _ s e refl refl h)
    ]
  ]

  -- The changes that a round of publishing has still to come to.
  pub record Queued (changes : List GlobalChangeLogEntry) (logs : Map String LogTable)
      (global : List GlobalChangeLogEntry) (next_global : ℕ) : Type 0 where
    pub all : LinksHold logs global next_global
    pub linked : All (λ c. is_linked conn logs c ≡ true) changes
    pub apart : Pairwise Apart changes
    pub others : All (λ c. All (λ g. (nat_beq g.id c.id ≡ true) ⊎ Apart c g) global) changes

  abbrev pub Waiting : List GlobalChangeLogEntry → Store W → Type 0
  Waiting changes s = Queued changes s.logs s.global s.next_global

  pub mark-Waiting :
      (c : GlobalChangeLogEntry) (changes : List GlobalChangeLogEntry) (t : LogTable) (s : Store W)
      (faults : List (Option Error))
      → lookup (log_of conn c.table_name) s.logs ≡ some t
      → Waiting (c ∷ changes) s
      → Waiting changes (record s {
        logs =
            insert
              (log_of conn c.table_name)
              (record t { rows = set_published c.change_table_id t.rows })
              s.logs;
        global = keep_if (λ g. not (nat_beq g.id c.id)) s.global;
        faults = faults;
      })
  mark-Waiting c changes t s faults found w =
      let still =
        λ (g : GlobalChangeLogEntry) (apart : Apart c g) (linked : is_linked conn s.logs g ≡ true).
          is_linked-set_published conn s.logs t c g found apart.1 linked in
      record {
        all = record {
          linked =
              All-keep_if _ _ _ s.global
                (λ g kept (linked, other). elim other [
                  | inl same ↦ absurd (ground arith)
                  | inr apart ↦ still g apart linked
                ])
                (All-both (λ g. is_linked conn s.logs g ≡ true)
                  (λ g. (nat_beq g.id c.id ≡ true) ⊎ Apart c g)
                  (λ g. (is_linked conn s.logs g ≡ true) × ((nat_beq g.id c.id ≡ true) ⊎ Apart c g))
                  s.global (λ g l o. (l, o)) w.all.linked w.others.0);
          apart = Pairwise-keep_if Apart _ s.global w.all.apart;
          fresh = All-keep_if _ _ _ s.global (λ g _ lt. lt) w.all.fresh;
        };
        linked = All-both _ _ _ changes still w.apart.0 w.linked.1;
        apart = w.apart.1;
        others = All-map _ _ changes (λ d h. All-keep_if _ _ _ s.global (λ g _ o. o) h) w.others.1;
      }

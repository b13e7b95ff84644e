-- ===== src/Db/Store/Links.antt =====
-- The link of a global entry of db/ to its row in a table's change log.
use text.Mathlib.Text.{◌==◌ as str_eq}
use marmot.Base.{
  ℕ, suc, String, ◌≡◌, refl, ap, arith, Bool, true, false, ◌&&◌, Option, none, some, List, [], ◌∷◌,
  ◌++◌, nat_beq, ltb, eq_iff, string_key,
}
use marmot.Base.Maps.{Map, lookup, insert, lookup-insert}
use marmot.Base.Int.{int_beq}
use marmot.Db.Store.{
  SqliteStreamDb, LogRow, LogTable, GlobalChangeLogEntry, log_of, pending, find_pending,
  set_published,
}

abbrev pub is_some {ℓ} : {A : Type ℓ} → Option A → Bool
is_some none = false
is_some (some a) = true

-- The entry's row is in the table, pending, and its id has been given out.
abbrev pub linked_in : Option LogTable → ℕ → Bool
linked_in none id = false
linked_in (some t) id = ltb id t.next_id && is_some (find_pending id t.rows)

find_pending-append :
    (id : ℕ) (rows : List LogRow) (new : LogRow)
    → is_some (find_pending id rows) ≡ true
    → is_some (find_pending id (rows ++ new ∷ [])) ≡ true
unfolding find_pending
find_pending-append id [] new h = cc
find_pending-append id (row ∷ rows) new h = ground (arith, find_pending-append id rows new)

find_pending-new :
    (rows : List LogRow) (new : LogRow)
    → int_beq new.state pending ≡ true
    → is_some (find_pending new.id (rows ++ new ∷ [])) ≡ true
unfolding find_pending
find_pending-new [] new h = ground arith
find_pending-new (row ∷ rows) new h = ground (arith, find_pending-new rows new h)

pub find_pending-set_published :
    (id other : ℕ) (rows : List LogRow)
    → nat_beq other id ≡ false
    → find_pending id (set_published other rows) ≡ find_pending id rows
unfolding find_pending set_published
find_pending-set_published id other [] h = refl
find_pending-set_published id other (row ∷ rows) h =
    ground (arith, find_pending-set_published id other rows h)

-- The row that a linked entry finds has the entry's id.
pub find_pending-id :
    (id : ℕ) (rows : List LogRow) (row : LogRow) → find_pending id rows ≡ some row → row.id ≡ id
unfolding find_pending
find_pending-id id [] row h = cc
find_pending-id id (r ∷ rows) row h = ground (arith, find_pending-id id rows row)

module _ {W : Type 0} (conn : SqliteStreamDb W) where
  abbrev pub is_linked : Map String LogTable → GlobalChangeLogEntry → Bool
  is_linked logs g = linked_in (lookup (log_of conn g.table_name) logs) g.change_table_id

  abbrev pub same_link : GlobalChangeLogEntry → GlobalChangeLogEntry → Bool
  same_link a b =
      str_eq (log_of conn a.table_name) (log_of conn b.table_name)
      && nat_beq a.change_table_id b.change_table_id

  pub is_linked-set_published :
      (logs : Map String LogTable) (t : LogTable) (a b : GlobalChangeLogEntry)
      → lookup (log_of conn a.table_name) logs ≡ some t
      → same_link a b ≡ false
      → is_linked logs b ≡ true
      → is_linked
          (insert
            (log_of conn a.table_name)
            (record t { rows = set_published a.change_table_id t.rows })
            logs)
          b
        ≡ true
  is_linked-set_published logs t a b found apart linked = ground (
    arith,
    lookup-insert (log_of conn a.table_name) (log_of conn b.table_name)
        (record t { rows = set_published a.change_table_id t.rows }) logs,
    eq_iff (log_of conn a.table_name) (log_of conn b.table_name),
    find_pending-set_published b.change_table_id a.change_table_id t.rows,
  )

  pub same_link_sym : (a b : GlobalChangeLogEntry) → same_link a b ≡ false → same_link b a ≡ false
  same_link_sym a b h = ground (
    arith,
    eq_iff (log_of conn a.table_name) (log_of conn b.table_name),
    eq_iff (log_of conn b.table_name) (log_of conn a.table_name),
  )

  -- A new row at the end of a table keeps the links, and is linked by an entry with the next id.
  pub is_linked-append :
      (logs : Map String LogTable) (t : LogTable) (new : LogRow) (log : String)
      → lookup log logs ≡ some t
      → new.id ≡ t.next_id
      → int_beq new.state pending ≡ true
      → let logs' =
          insert log (record { rows = t.rows ++ new ∷ []; next_id = suc t.next_id }) logs in
        ((g : GlobalChangeLogEntry) → is_linked logs g ≡ true → is_linked logs' g ≡ true)
        × (linked_in (lookup log logs') t.next_id ≡ true)
  is_linked-append logs t new log found fresh waiting =
      let t' : LogTable = record { rows = t.rows ++ new ∷ []; next_id = suc t.next_id } in
      let appended = find_pending-new t.rows new waiting in
      (
        λ g h. ground (
          arith,
          lookup-insert log (log_of conn g.table_name) t' logs,
          eq_iff log (log_of conn g.table_name),
          find_pending-append g.change_table_id t.rows new,
        ),
        ground (
          arith,
          lookup-insert log log t' logs,
          eq_iff log log,
          ap (λ (i : ℕ). is_some (find_pending i (t.rows ++ new ∷ []))) fresh,
        ),
      )

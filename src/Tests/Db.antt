-- ===== src/Tests/Db.antt =====
-- The listed results of db/, each at a small input.
use marmot.Base.{
  length, ℕ, subst, ap, ◌∙◌, ◌≢◌, Bool-cases, inl, inr, String, ◌≡◌, refl, arith, true, false, some,
  List, [], ◌∷◌, take, nat_key, string_key,
}
use marmot.Base.Maps.{lookup, insert}
use marmot.Base.Int.{pos}
use marmot.Base.Errors.{Result, ok, err, panic, ◌>>=◌, library, sentinel, canceled}
use marmot.Db.Event.{
  Value, integer, time, sensitive, ColumnInfo, ChangeLogEvent, Encoder, any_row, is_time,
  get_sorted_pk_columns, map_row, unwrap, wrap, hash, key_columns,
}
use marmot.Db.Event.Wrap.{pointed, unwrap-wrap, wrap_no_time}
use marmot.Db.Event.Hash.{hash_same_key}
use marmot.Db.Store.{
  LogRow, pending, find_pending, GlobalChangeLogEntry, SqliteStreamDb, Store, meta_table,
}
use marmot.Db.Cleanup.{cleanup_change_logs}
use marmot.Db.Cleanup.Kept.{Keeps, cleanup_change_logs-Keeps}
use marmot.Db.ChangeLog.{capture, order_by_id, publish_change_log}
use marmot.Db.ChangeLog.Invariant.{IsLinked, capture-IsLinked}
use marmot.Db.ChangeLog.Calm.{IsKeyed}
use marmot.Db.ChangeLog.Rounds.{IsSteady}
use marmot.Db.ChangeLog.Sound.{publish_change_log-IsLinked}
use marmot.Db.ChangeLog.Events.{AreKeyed, is_published}
use marmot.Db.ChangeLog.Unheard.{nones, publish_change_log_unheard}
use marmot.Db.ChangeLog.Waits.{publish_change_log_waits}
use marmot.Db.ChangeLog.InOrder.{Went, publish_change_log_in_order}

abbrev pub id_column : ColumnInfo
id_column = record {
  name = "id";
  type = "INTEGER";
  not_null = true;
  default_value = Value.nil;
  primary_key_index = 1;
  is_primary_key = true;
}

abbrev pub at_column : ColumnInfo
at_column = record {
  name = "at";
  type = "DATETIME";
  not_null = false;
  default_value = Value.nil;
  primary_key_index = 0;
  is_primary_key = false;
}

abbrev pub book : ℕ → ℕ → ChangeLogEvent
book id at = record {
  id = id;
  type = "insert";
  table_name = "books";
  row = ("id", integer (pos 7)) ∷ ("at", time at) ∷ [];
  table_info = id_column ∷ at_column ∷ [];
}

abbrev book_wrapped : ChangeLogEvent
book_wrapped = record (book 1 5) { row = ("id", integer (pos 7)) ∷ ("at", sensitive (some 5)) ∷ [] }

unwrap-wrap_example :
    (wrap (book 1 5) >>= unwrap) ≡ ok (record (book 1 5) { row = map_row pointed (book 1 5).row })
unwrap-wrap_example = unwrap-wrap (book 1 5)

wrap_no_time_example : any_row is_time book_wrapped.row ≡ false
unfolding wrap
wrap_no_time_example = wrap_no_time (book 1 5) book_wrapped refl

abbrev pub encoder : Encoder
encoder = record {
  start_indefinite_array = ok (0x9f ∷ []);
  encode_text = λ s. ok (0x60 ∷ []);
  encode_pair = λ s w. ok (1 ∷ []);
  end_indefinite = ok (0xff ∷ []);
}

hash_same_key_example :
    (hash encoder (hash encoder [] (book 1 5)).1 (book 2 6)).0 ≡ (hash encoder [] (book 1 5)).0
unfolding get_sorted_pk_columns key_columns lookup
hash_same_key_example = hash_same_key encoder [] (book 1 5) (book 2 6) refl (refl, tt)

-- A callback that keeps the ids and types of the events.
abbrev pub World : Type 0
World = List (ℕ × String)

abbrev pub keeps : ChangeLogEvent → World → Result (Unit {0}) × World
keeps e w = (ok tt, (e.id, e.type) ∷ w)

abbrev pub conn : SqliteStreamDb World
conn = record {
  on_change = some keeps;
  prefix = "__marmot__";
  watch_tables_schema = ("books", id_column ∷ at_column ∷ []) ∷ [];
}

abbrev pub empty : Store World
empty = record {
  logs = (meta_table "__marmot__" "books" "change_log", record { rows = []; next_id = 1 }) ∷ [];
  global = [];
  next_global = 1;
  publish_lock = false;
  pending_publish = 0;
  published_count = 0;
  world = [];
  faults = [];
}

empty-IsLinked : IsLinked conn empty
empty-IsLinked = record { linked = tt; apart = tt; fresh = tt }

abbrev pub one_change : Store World
one_change = capture conn 0 "books" "insert" (book 1 5).row 100 empty

capture-IsLinked_example : IsLinked conn one_change
capture-IsLinked_example =
    capture-IsLinked conn 0 "books" "insert" (book 1 5).row 100 empty empty-IsLinked

one_change-IsLinked : IsLinked conn one_change
one_change-IsLinked =
    capture-IsLinked conn 0 "books" "insert" (book 1 5).row 100 empty empty-IsLinked

abbrev pub two_changes : Store World
two_changes = capture conn 0 "books" "update" (book 1 6).row 101 one_change

pub two_changes-IsLinked : IsLinked conn two_changes
two_changes-IsLinked =
    capture-IsLinked conn 0 "books" "update" (book 1 6).row 101 one_change one_change-IsLinked

pub some_inj : {A : Type 0} {x y : A} → some x ≡ some y → x ≡ y
some_inj h = cc

ok-ne-panic : (x : Unit {0}) (m : String) → ok x ≢ panic m
ok-ne-panic x m h = ground arith

pub conn-IsSteady : IsSteady conn
conn-IsSteady f watched e w m h =
    let same : keeps ≡ f = some_inj watched in ok-ne-panic tt m (ap (λ g. (g e w).0) same ∙ h)

publish_change_log-IsLinked_example :
    ((publish_change_log conn 10 two_changes).0 ≡ ok tt)
    × IsLinked conn (publish_change_log conn 10 two_changes).1
publish_change_log-IsLinked_example =
    publish_change_log-IsLinked conn 10 two_changes conn-IsSteady two_changes-IsLinked

pub two_changes-AreKeyed : AreKeyed conn two_changes.logs
unfolding capture lookup insert meta_table
two_changes-AreKeyed log t found =
    elim (Bool-cases (string_key.same (meta_table "__marmot__" "books" "change_log") log)) [
      | inl e ↦ subst (λ u. IsKeyed u.rows) (some_inj (rw e at (found))) ((refl, tt), (tt, tt))
      | inr e ↦ absurd (ground arith)
    ]

pub two_changes_free : two_changes.publish_lock ≡ false
unfolding capture lookup insert meta_table
two_changes_free = refl

pub two_changes_calm : two_changes.faults ≡ []
unfolding capture lookup insert meta_table
two_changes_calm = refl

publish_change_log_in_order_example :
    let run = publish_change_log conn 10 two_changes in
    (run.0 ≡ ok tt)
    × (run.1.publish_lock ≡ false)
    × Went conn keeps refl
        (λ w. Unit)
        (λ e w _. (tt, tt))
        (take 10 (order_by_id two_changes.global))
        two_changes
        run.1
publish_change_log_in_order_example =
    publish_change_log_in_order conn keeps refl (λ w. Unit) (λ e w _. (tt, tt)) 10 two_changes
      two_changes_free two_changes-IsLinked two_changes-AreKeyed two_changes_calm tt

abbrev first_entry : GlobalChangeLogEntry
first_entry = record { id = 1; change_table_id = 1; table_name = "books" }

cleanup_change_logs-Keeps_example :
    Keeps conn first_entry two_changes (cleanup_change_logs conn 200 two_changes).1
cleanup_change_logs-Keeps_example = cleanup_change_logs-Keeps conn first_entry 200 two_changes

-- A node that is shutting down.
abbrev stopping : SqliteStreamDb World
stopping = record conn { on_change = some (λ e w. (err (sentinel canceled), w)) }

two_changes-stopping : IsLinked stopping two_changes
two_changes-stopping = record {
  linked = two_changes-IsLinked.linked;
  apart = two_changes-IsLinked.apart;
  fresh = two_changes-IsLinked.fresh;
}

publish_change_log_waits_example :
    publish_change_log stopping 10 two_changes
    ≡ (ok tt, record two_changes { pending_publish = length two_changes.global })
publish_change_log_waits_example =
    publish_change_log_waits stopping (sentinel canceled) refl refl 10 two_changes two_changes_free
      two_changes-stopping two_changes-AreKeyed two_changes_calm

-- The ninth call of the database, the first `Next` of the rows, fails.
abbrev failing : Store World
failing = record one_change { faults = nones 8 (some (library "disk I/O error") ∷ []) }

abbrev first_row : LogRow
first_row = record {
  id = 1;
  values = ("val_id", integer (pos 7)) ∷ ("val_at", time 5) ∷ [];
  type = "insert";
  created_at = 100;
  state = pending;
}

publish_change_log_unheard_example :
    let s' = (publish_change_log conn 10 failing).1 in
    (s'.world ≡ []) × (s'.global ≡ []) × (is_published conn s'.logs first_entry ≡ true)
unfolding capture lookup insert meta_table find_pending
publish_change_log_unheard_example =
    publish_change_log_unheard conn first_entry (record { rows = first_row ∷ []; next_id = 2 })
      first_row (library "disk I/O error") failing 10 refl refl (omega arith) refl refl refl

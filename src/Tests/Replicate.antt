-- ===== src/Tests/Replicate.antt =====
-- The listed results on the replication of db/, with tables that are functions from keys to rows.
use marmot.Base.{
  ℕ, String, ◌≡◌, refl, ap, sym, arith, Bool, true, false, ◌&&◌, Option, none, some, List, [], ◌∷◌,
  keep_if, nat_beq, nat_beq_iff, if◌then◌else◌, ◌==◌, nat_key, string_key, Bool-cases, inl, inr,
}
use marmot.Base.Maps.{lookup, insert}
use mathlib.Core.Path.{subst}
use marmot.Base.Int.{pos}
use marmot.Base.Errors.{ok, err, library}
use marmot.Db.Event.{Value, integer, Row, ColumnInfo, ChangeLogEvent, value_at}
use marmot.Db.Store.{SqliteStreamDb}
use marmot.Db.Replicate.{
  Engine, TxFaults, primary_keys, get_primary_key_map, replicate_row, replicate,
}
use marmot.Db.Replicate.Laws.{HasKeys}
use marmot.Db.Replicate.Effect.{touches, replicate-effect, replicate_failed}
use marmot.Db.Replicate.Converge.{Replayed, done, accepted, retried, replicas_converge}

abbrev pub Tables : Type 0
Tables = String → ℕ → Option Row

abbrev pub number : Value → ℕ
number (integer (pos n)) = n
number _ = 0

abbrev pub key_of : String → Row → ℕ
key_of table row = number (value_at row "id")

abbrev pub functions : Engine Tables
functions = record {
  insert_or_replace = λ table row d.
      (ok tt, λ t k. if table == t && key_of table row == k then some row else d t k);
  delete_where =
      λ table row d. (ok tt, λ t k. if table == t && key_of table row == k then none else d t k);
}

abbrev pub column : String → Bool → ColumnInfo
column name is_key = record {
  name = name;
  type = "INTEGER";
  not_null = true;
  default_value = Value.nil;
  primary_key_index = 0;
  is_primary_key = is_key;
}

abbrev pub db : SqliteStreamDb Unit
db = record {
  on_change = none;
  prefix = "__marmot__";
  watch_tables_schema = ("books", column "id" true ∷ column "copies" false ∷ []) ∷ [];
}

pub some_inj : {A : Type 0} {x y : A} → some x ≡ some y → x ≡ y
some_inj h = cc

pub ok_inj : {A : Type 0} {x y : A} → ok x ≡ ok y → x ≡ y
ok_inj h = ground arith

pub same_number :
    (table : String) (cols : List ColumnInfo) (row : Row)
    → lookup table db.watch_tables_schema ≡ some cols
    → key_of table (primary_keys cols row []) ≡ key_of table row
unfolding lookup primary_keys insert
same_number table cols row h = elim (Bool-cases (string_key.same "books" table)) [
  | inl e ↦
      subst (λ cols. key_of table (primary_keys cols row []) ≡ key_of table row)
        (some_inj (rw e at (h))) refl
  | inr e ↦ absurd (ground arith)
]

abbrev pub functions-HasKeys : HasKeys db functions ℕ
functions-HasKeys = record {
  key_of = key_of;
  row_at = λ t k d. d t k;
  of_primary_keys = same_number;
  replaced = λ table row d d' t k h. ap (λ run. run.1 t k) (sym h);
  deleted = λ table row d d' t k h. ap (λ run. run.1 t k) (sym h);
}

abbrev book : String → ℕ → ℕ → ChangeLogEvent
book type id copies = record {
  id = 1;
  type = type;
  table_name = "books";
  row = ("id", integer (pos id)) ∷ ("copies", integer (pos copies)) ∷ [];
  table_info = [];
}

abbrev pub fine : TxFaults
fine = record { borrow = none; begin = none; commit = none }

abbrev busy : TxFaults
busy = record { borrow = none; begin = none; commit = some (library "database is locked") }

abbrev pub no_rows : Tables
no_rows t k = none

one_shard :
    (a b : ChangeLogEvent) (t : String) (k : ℕ)
    → touches db functions functions-HasKeys t k a ≡ true
    → touches db functions functions-HasKeys t k b ≡ true
    → key_of a.table_name a.row ≡ key_of b.table_name b.row
one_shard a b t k ha hb =
    ground
      (arith, nat_beq_iff (key_of a.table_name a.row) k, nat_beq_iff (key_of b.table_name b.row) k)

abbrev by_key : ChangeLogEvent → ℕ
by_key e = key_of e.table_name e.row

-- The first node takes the shards in one order, the second in the other, and tries one event twice.
abbrev here : List ChangeLogEvent
here = book "insert" 7 1 ∷ book "update" 7 2 ∷ book "insert" 8 1 ∷ []

abbrev there : List ChangeLogEvent
there = book "insert" 8 1 ∷ book "insert" 7 1 ∷ book "update" 7 2 ∷ []

same_shards :
    (shard : ℕ)
    → keep_if (λ e. nat_beq (by_key e) shard) here ≡ keep_if (λ e. nat_beq (by_key e) shard) there
unfolding lookup
same_shards shard = ground arith

abbrev step : ChangeLogEvent → Tables → Tables
step e d = (replicate db functions fine e d).1

run_here :
    Replayed db functions here no_rows
      (step (book "insert" 8 1) (step (book "update" 7 2) (step (book "insert" 7 1) no_rows)))
unfolding replicate get_primary_key_map replicate_row lookup
run_here = accepted (book "insert" 7 1) _ fine no_rows _ refl (
    accepted (book "update" 7 2) _ fine (step (book "insert" 7 1) no_rows) _ refl (
      accepted (book "insert" 8 1) _ fine
        (step (book "update" 7 2) (step (book "insert" 7 1) no_rows)) _ refl (done _)))

run_there :
    Replayed db functions there no_rows
      (step (book "update" 7 2) (step (book "insert" 7 1) (step (book "insert" 8 1) no_rows)))
unfolding replicate get_primary_key_map replicate_row lookup
run_there = retried (book "insert" 8 1) _ busy (library "database is locked") no_rows _ refl (
    accepted (book "insert" 8 1) _ fine no_rows _ refl (
      accepted (book "insert" 7 1) _ fine (step (book "insert" 8 1) no_rows) _ refl (
        accepted (book "update" 7 2) _ fine
          (step (book "insert" 7 1) (step (book "insert" 8 1) no_rows)) _ refl (done _))))

replicas_converge_example :
    step (book "insert" 8 1) (step (book "update" 7 2) (step (book "insert" 7 1) no_rows)) "books" 7
    ≡ step
        (book "update" 7 2)
        (step (book "insert" 7 1) (step (book "insert" 8 1) no_rows))
        "books"
        7
replicas_converge_example =
    replicas_converge db functions functions-HasKeys by_key one_shard here there no_rows _ no_rows _
      same_shards (λ t k. refl) run_here run_there "books" 7

replicate-effect_example :
    functions-HasKeys.row_at "books" 7 (step (book "delete" 7 0) (step (book "insert" 7 1) no_rows))
    ≡ none
unfolding replicate get_primary_key_map replicate_row lookup
replicate-effect_example =
    replicate-effect db functions functions-HasKeys (book "delete" 7 0) fine
      (step (book "insert" 7 1) no_rows) "books" 7 refl

-- Tables whose disk is full: a statement writes its row and then fails.
abbrev full : Engine Tables
full = record functions {
  insert_or_replace = λ table row d. (
    err (library "database or disk is full"),
    λ t k. if table == t && key_of table row == k then some row else d t k,
  );
}

replicate_failed_example : (replicate db full fine (book "insert" 7 1) no_rows).1 ≡ no_rows
unfolding replicate get_primary_key_map replicate_row lookup
replicate_failed_example = replicate_failed db full (book "insert" 7 1) fine no_rows (λ h. cc)

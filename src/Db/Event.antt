-- ===== src/Db/Event.antt =====
-- db/change_log_event.go and `ColumnInfo` of db/sqlite.go: the event that a change becomes, its
-- preparation for the encoder, and the hash by which its shard is chosen.
pub mod Wrap
pub mod Hash
pub mod Total
use mathlib.Core.List.{foldr}
use text.Mathlib.Text.{is_lt}
use Prim.Native.String.{compare}
use marmot.Base.{
  ℕ, String, Bool, true, false, Option, none, some, List, [], ◌∷◌, ◌++◌, ◌||◌, map, keep_if,
  if◌then◌else◌, string_key,
}
use marmot.Base.Maps.{Map, lookup, insert}
use marmot.Base.Int.{ℤ}
use marmot.Base.Fnv.{fnv64}
use marmot.Base.Errors.{Result, ok, err, panic, ◌>>=◌}

-- The `any` values of a row. A time is an instant, in nanoseconds from the start of some second;
-- `sensitive` is a `sensitiveTypeWrapper`, and `time_pointer` the `*time.Time` in it, which `GetValue`
-- returns.
pub data Value : Type 0 where
  nil : Value
  integer : ℤ → Value
  real : ℕ → Value
  boolean : Bool → Value
  string : String → Value
  blob : List ℕ → Value
  time : ℕ → Value
  time_pointer : Option ℕ → Value
  sensitive : Option ℕ → Value

abbrev pub Row : Type 0
Row = Map String Value

pub record ColumnInfo : Type 0 where
  pub name : String
  pub type : String
  pub not_null : Bool
  pub default_value : Value
  pub primary_key_index : ℕ
  pub is_primary_key : Bool

pub record ChangeLogEvent : Type 0 where
  pub id : ℕ
  pub type : String
  pub table_name : String
  pub row : Row
  pub table_info : List ColumnInfo

abbrev or_nil : Option Value → Value
or_nil none = nil
or_nil (some v) = v

-- `row[k]`: a missing key reads as nil.
abbrev pub value_at : Row → String → Value
value_at row k = or_nil (lookup k row)

unfoldable pub is_time : Value → Bool
is_time (time t) = true
is_time _ = false

unfoldable pub prepared : Value → Value
prepared (time t) = sensitive (some t)
prepared v = v

unfoldable pub unwrapped : Value → Value
unwrapped (sensitive t) = time_pointer t
unwrapped v = v

abbrev pub any_row : (Value → Bool) → Row → Bool
any_row p [] = false
any_row p ((k, v) ∷ row) = p v || any_row p row

-- A range over a map that writes each key to a new one is a map over the entries.
abbrev pub map_row : (Value → Value) → Row → Row
map_row f [] = []
map_row f ((k, v) ∷ row) = (k, f v) ∷ map_row f row

unfoldable pub prepare : ChangeLogEvent → ChangeLogEvent
unfolding is_time prepared
prepare e = if any_row is_time e.row then record e { row = map_row prepared e.row } else e

unfoldable pub wrap : ChangeLogEvent → Result ChangeLogEvent
unfolding prepare
wrap e = ok (prepare e)

unfoldable pub unwrap : ChangeLogEvent → Result ChangeLogEvent
unfolding unwrapped
unwrap e = ok (record e { row = map_row unwrapped e.row })

-- `sort.Strings`
insert_sorted : String → List String → List String
insert_sorted s [] = s ∷ []
insert_sorted s (t ∷ ts) = if is_lt (compare t s) then t ∷ insert_sorted s ts else s ∷ t ∷ ts

sort_strings : List String → List String
unfolding insert_sorted
sort_strings = foldr insert_sorted []

abbrev pub PkCache : Type 0
PkCache = Map String (List String)

-- The names of the key's columns, sorted.
unfoldable pub key_columns : ChangeLogEvent → List String
unfolding sort_strings insert_sorted
key_columns e = sort_strings (map (λ c. c.name) (keep_if (λ c. c.is_primary_key) e.table_info))

-- `getSortedPKColumns`: the first answer for a table is kept in the cache.
unfoldable pub get_sorted_pk_columns : PkCache → ChangeLogEvent → List String × PkCache
get_sorted_pk_columns cache e = elim (lookup e.table_name cache) [
  | some values ↦ (values, cache)
  | none ↦ let columns = key_columns e in (columns, insert e.table_name columns cache)
]

-- The CBOR encoder that writes to the hasher: what each call writes, or its error.
pub record Encoder : Type 0 where
  pub start_indefinite_array : Result (List ℕ)
  pub encode_text : String → Result (List ℕ)
  pub encode_pair : String → Value → Result (List ℕ)
  pub end_indefinite : Result (List ℕ)

encode_columns : Encoder → Row → List String → Result (List ℕ)
encode_columns enc row [] = ok []
encode_columns enc row (pk ∷ pks) = do
  pair ← enc.encode_pair pk (value_at row pk)
  rest ← encode_columns enc row pks
  ok (pair ++ rest)

hash_columns : Encoder → ChangeLogEvent → List String → Result ℕ
unfolding encode_columns
hash_columns enc e pks = do
  start ← enc.start_indefinite_array
  name ← enc.encode_text e.table_name
  columns ← encode_columns enc e.row pks
  end ← enc.end_indefinite
  ok (fnv64 (start ++ name ++ columns ++ end))

header : Encoder → String → Result (List ℕ)
header enc table_name = enc.start_indefinite_array >>= λ _. enc.encode_text table_name

hash_after : Encoder → PkCache → ChangeLogEvent → Result (List ℕ) → Result ℕ × PkCache
hash_after enc cache e (ok _) =
    let (pks, cache') = get_sorted_pk_columns cache e in (hash_columns enc e pks, cache')
hash_after enc cache e (err x) = (err x, cache)
hash_after enc cache e (panic m) = (panic m, cache)

-- `Hash`, which asks for the key's columns only once the name is encoded.
pub hash : Encoder → PkCache → ChangeLogEvent → Result ℕ × PkCache
unfolding header hash_after hash_columns
hash enc cache e = hash_after enc cache e (header enc e.table_name)

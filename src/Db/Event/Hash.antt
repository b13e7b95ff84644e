-- ===== src/Db/Event/Hash.antt =====
-- What `Hash` of db/change_log_event.go depends on.
use marmot.Base.{
  ℕ, String, ◌≡◌, refl, sym, ap, arith, List, [], ◌∷◌, Option-cases, inl, inr, All, string_key,
}
use marmot.Base.Maps.{lookup, lookup-insert_self}
use marmot.Base.Errors.{Result, ok, err, panic}
use marmot.Db.Event.{
  ChangeLogEvent, Row, PkCache, Encoder, value_at, key_columns, get_sorted_pk_columns,
  encode_columns, hash_columns, header, hash_after, hash,
}

encode_columns_eq :
    (enc : Encoder) (a b : Row) (pks : List String)
    → All (λ pk. value_at a pk ≡ value_at b pk) pks
    → encode_columns enc a pks ≡ encode_columns enc b pks
unfolding encode_columns
encode_columns_eq enc a b [] same = refl
encode_columns_eq enc a b (pk ∷ pks) same = rw (same.0, encode_columns_eq enc a b pks same.1) refl

-- Once a table's columns are in the cache, every later event of the table gets the same.
get_sorted_pk_columns_cached :
    (cache : PkCache) (a b : ChangeLogEvent)
    → a.table_name ≡ b.table_name
    → get_sorted_pk_columns (get_sorted_pk_columns cache a).1 b ≡ get_sorted_pk_columns cache a
unfolding get_sorted_pk_columns
get_sorted_pk_columns_cached cache a b same = elim (Option-cases (lookup a.table_name cache)) [
  | inl e ↦ ground (arith, lookup-insert_self a.table_name (key_columns a) cache)
  | inr (pks, e) ↦ ground arith
]

hash_columns_eq :
    (enc : Encoder) (a b : ChangeLogEvent) (pks : List String)
    → a.table_name ≡ b.table_name
    → All (λ pk. value_at a.row pk ≡ value_at b.row pk) pks
    → hash_columns enc a pks ≡ hash_columns enc b pks
unfolding hash_columns
hash_columns_eq enc a b pks same agree = rw (same, encode_columns_eq enc a.row b.row pks agree) refl

hash_after_same :
    (enc : Encoder) (cache : PkCache) (a b : ChangeLogEvent) (r : Result (List ℕ))
    → a.table_name ≡ b.table_name
    → All (λ pk. value_at a.row pk ≡ value_at b.row pk) (get_sorted_pk_columns cache a).0
    → (hash_after enc (hash_after enc cache a r).1 b r).0 ≡ (hash_after enc cache a r).0
unfolding hash_after
hash_after_same enc cache a b (ok _) same agree =
    rw (get_sorted_pk_columns_cached cache a b same)
      (sym (hash_columns_eq enc a b (get_sorted_pk_columns cache a).0 same agree))
hash_after_same enc cache a b (err x) same agree = refl
hash_after_same enc cache a b (panic m) same agree = refl

-- Two events of one table that agree on the columns of its key have one hash, whichever comes
-- first, and whatever their other columns and table infos are.
pub hash_same_key :
    (enc : Encoder) (cache : PkCache) (a b : ChangeLogEvent)
    → a.table_name ≡ b.table_name
    → All (λ pk. value_at a.row pk ≡ value_at b.row pk) (get_sorted_pk_columns cache a).0
    → (hash enc (hash enc cache a).1 b).0 ≡ (hash enc cache a).0
unfolding hash
hash_same_key enc cache a b same agree =
    rw (← ap (header enc) same) (hash_after_same enc cache a b (header enc a.table_name) same agree)

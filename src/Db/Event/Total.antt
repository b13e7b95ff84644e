-- ===== src/Db/Event/Total.antt =====
-- `Hash` of db/change_log_event.go with an encoder that does not fail.
use marmot.Base.{ℕ, String, ◌≡◌, refl, List, [], ◌∷◌, ◌++◌, string_key}
use marmot.Base.Fnv.{fnv64}
use marmot.Base.Errors.{ok}
use marmot.Db.Event.{
  Row, Value, ChangeLogEvent, PkCache, Encoder, hash, hash_after, hash_columns, header,
  encode_columns, value_at, get_sorted_pk_columns,
}

-- The encoder's calls all give bytes.
pub record IsTotal (enc : Encoder) : Type 0 where
  pub start : (b : List ℕ) × (enc.start_indefinite_array ≡ ok b)
  pub text : (s : String) → (b : List ℕ) × (enc.encode_text s ≡ ok b)
  pub pair : (s : String) (v : Value) → (b : List ℕ) × (enc.encode_pair s v ≡ ok b)
  pub end : (b : List ℕ) × (enc.end_indefinite ≡ ok b)

encode_columns-ok :
    (enc : Encoder) (row : Row) (pks : List String)
    → IsTotal enc
    → (b : List ℕ) × (encode_columns enc row pks ≡ ok b)
unfolding encode_columns
encode_columns-ok enc row [] total = ([], refl)
encode_columns-ok enc row (pk ∷ pks) total =
    let (rest, e) = encode_columns-ok enc row pks total in
    let (pair, p) = total.pair pk (value_at row pk) in (pair ++ rest, rw (p, e) refl)

pub hash-ok :
    (enc : Encoder) (cache : PkCache) (e : ChangeLogEvent)
    → IsTotal enc
    → (h : ℕ) × (c : PkCache) × (hash enc cache e ≡ (ok h, c))
unfolding hash header hash_after hash_columns
hash-ok enc cache e total =
    let (start, s) = total.start in
    let (text, t) = total.text e.table_name in
    let (end, x) = total.end in
    let (pks, cache') = get_sorted_pk_columns cache e in
    let (columns, c) = encode_columns-ok enc e.row pks total in
    (fnv64 (start ++ text ++ columns ++ end), cache', rw (s, t, t, c, x) refl)

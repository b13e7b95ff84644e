-- ===== src/Tests/Wire.antt =====
-- The listed results on the wire and the handlers, with an encoding of books that have an id and a time.
use text.Mathlib.Text.{◌==◌ as str_eq}
use marmot.Base.{
  ℕ, ◌*◌, ◌/◌, ◌≡◌, refl, arith, eq_iff, true, false, ◌&&◌, Option, none, some, [], ◌∷◌, inl, inr,
  if◌then◌else◌, nat_key, string_key, Option-cases, Bool-cases,
}
use marmot.Base.Int.{pos, negsuc}
use mathlib.Core.Path.{subst}
use marmot.Tests.Replicate.{ok_inj, Tables, functions, functions-HasKeys, db, column, fine, no_rows}
use marmot.Base.Maps.{lookup}
use marmot.Db.Replicate.{replicate, get_primary_key_map, replicate_row}
use marmot.Db.Replicate.Effect.{touches, row_after}
use marmot.Handlers.{Node, on_change_event}
use marmot.Handlers.Delivery.{delivered-effect}
use marmot.Base.Errors.{Result, ok, err, library}
use marmot.Cfg.{default_config}
use marmot.LogStream.Replicator.{Bytes}
use marmot.Db.Event.{
  Value, nil, integer, time, sensitive, Row, ChangeLogEvent, map_row, prepare, prepared, wrap,
  unwrap, unwrapped, is_time,
}
use marmot.Wire.{ReplicationEvent, TaggedCbor, change_log_event, marshal, unmarshal}
use marmot.Wire.RoundTrip.{
  is_time_pointer, whole_second, in_seconds, Keeps, arrived, unmarshal-marshal,
}

number_of : Value → Option ℕ
number_of (integer (pos n)) = some n
number_of _ = none

time_of : Value → Option ℕ
time_of (sensitive t) = t
time_of _ = none

number_of-some : (v : Value) (n : ℕ) → number_of v ≡ some n → v ≡ integer (pos n)
unfolding number_of
number_of-some (integer (pos n)) m h = ground arith
number_of-some (integer (negsuc n)) m h = cc
number_of-some nil m h = cc
number_of-some _ m h = cc

time_of-some : (v : Value) (t : ℕ) → time_of v ≡ some t → v ≡ sensitive (some t)
unfolding time_of
time_of-some (sensitive u) t h = cc
time_of-some nil t h = cc
time_of-some _ t h = cc

encode_row : ℕ → ℕ → Option ℕ → Option ℕ → Result Bytes
encode_row node id (some n) (some t) = ok (node ∷ id ∷ n ∷ t / 1000000000 ∷ [])
encode_row node id _ _ = err (library "no book")

encode_payload : ℕ → ChangeLogEvent → Row → Result Bytes
unfolding encode_row number_of time_of
encode_payload node e ((a, v) ∷ (b, w) ∷ []) =
    if str_eq e.type "insert" && str_eq e.table_name "books" && str_eq a "id" && str_eq b "at"
    then encode_row node e.id (number_of v) (time_of w)
    else err (library "no book")
encode_payload node e _ = err (library "no book")

encode : ReplicationEvent ChangeLogEvent → Result Bytes
unfolding encode_payload
encode e = encode_payload e.from_node_id e.payload e.payload.row

abbrev inserted : ℕ → ℕ → ℕ → ℕ → ReplicationEvent ChangeLogEvent
inserted node id n t = record {
  from_node_id = node;
  payload = record {
    id = id;
    type = "insert";
    table_name = "books";
    row = ("id", integer (pos n)) ∷ ("at", sensitive (some t)) ∷ [];
    table_info = [];
  };
}

decode : Bytes → Result (ReplicationEvent ChangeLogEvent)
decode (node ∷ id ∷ n ∷ s ∷ []) = ok (inserted node id n (s * 1000000000))
decode _ = err (library "unexpected end of file")

abbrev books : TaggedCbor ChangeLogEvent
books = record { enc_mode = none; dec_mode = none; encode = encode; decode = decode }

decode-encode_row :
    (node id : ℕ) (v w : Value) (bytes : Bytes)
    → encode_row node id (number_of v) (time_of w) ≡ ok bytes
    → (n : ℕ) × (t : ℕ) × (v ≡ integer (pos n))
      × (w ≡ sensitive (some t))
      × (decode bytes ≡ ok (inserted node id n (whole_second t)))
unfolding encode_row decode
decode-encode_row node id v w bytes h = elim (Option-cases (number_of v)) [
  | inl e ↦ absurd (ground arith)
  | inr (n, e) ↦ elim (Option-cases (time_of w)) [
    | inl f ↦ absurd (ground arith)
    | inr (t, f) ↦ (
      n,
      t,
      number_of-some v n e,
      time_of-some w t f,
      subst (λ b. decode b ≡ ok (inserted node id n (whole_second t))) (ok_inj (rw (e, f) at (h)))
          refl,
    )
  ]
]

decode-encode_payload :
    (node : ℕ) (p : ChangeLogEvent) (row : Row) (bytes : Bytes)
    → encode_payload node p row ≡ ok bytes
    → decode bytes
      ≡ ok (record {
        from_node_id = node;
        payload = record p { row = map_row in_seconds row; table_info = [] };
      })
unfolding encode_payload in_seconds
decode-encode_payload node p [] bytes h = absurd (ground arith)
decode-encode_payload node p (x ∷ []) bytes h = absurd (ground arith)
decode-encode_payload node p (x ∷ y ∷ z ∷ rest) bytes h = absurd (ground arith)
decode-encode_payload node p ((a, v) ∷ (b, w) ∷ []) bytes h =
    elim (Bool-cases
      (str_eq p.type "insert" && str_eq p.table_name "books" && str_eq a "id" && str_eq b "at")) [
        | inr other ↦ absurd (ground arith)
        | inl book ↦
            let (n, t, ev, ew, dec) = decode-encode_row node p.id v w bytes (rw book at (h)) in
            let type_is : p.type ≡ "insert" = (eq_iff p.type "insert").0 (ground arith) in
            let table_is : p.table_name ≡ "books" =
              (eq_iff p.table_name "books").0 (ground arith) in
            let a_is : a ≡ "id" = (eq_iff a "id").0 (ground arith) in
            let b_is : b ≡ "at" = (eq_iff b "at").0 (ground arith) in
            rw (type_is, table_is, a_is, b_is, ev, ew) dec
      ]

books-Keeps : Keeps books
unfolding encode
books-Keeps e bytes no_time no_pointer h =
    decode-encode_payload e.from_node_id e.payload e.payload.row bytes h

-- Node 3 inserts the book 7 at a time of 2 seconds and 5 nanoseconds.
abbrev inserted_here : ReplicationEvent ChangeLogEvent
inserted_here = record {
  from_node_id = 3;
  payload = record {
    id = 5;
    type = "insert";
    table_name = "books";
    row = ("id", integer (pos 7)) ∷ ("at", time 2000000005) ∷ [];
    table_info = column "id" true ∷ [];
  };
}

abbrev empty_event : ReplicationEvent ChangeLogEvent
empty_event = record {
  from_node_id = 0;
  payload = record { id = 0; type = ""; table_name = ""; row = []; table_info = [] };
}

sent_bytes : marshal books inserted_here ≡ ok (3 ∷ 5 ∷ 7 ∷ 2 ∷ [])
unfolding marshal wrap prepare prepared is_time encode
sent_bytes = refl

unmarshal-marshal_example :
    unmarshal books empty_event (3 ∷ 5 ∷ 7 ∷ 2 ∷ []) ≡ (ok tt, arrived inserted_here)
unfolding is_time_pointer
unmarshal-marshal_example =
    unmarshal-marshal books inserted_here empty_event (3 ∷ 5 ∷ 7 ∷ 2 ∷ []) books-Keeps refl refl
      refl sent_bytes

abbrev node : Node Unit Tables
node = record {
  canceled = false;
  pulses = 0;
  pk_cache = [];
  running = record {
    rep_state = record { seq = []; fl = none };
    snapshots_started = 0;
    world = tt;
  };
  tables = no_rows;
}

delivered-effect_example :
    functions-HasKeys.row_at "books" 7
      (on_change_event
        (default_config "/tmp")
        books
        db
        functions
        fine
        empty_event
        (3 ∷ 5 ∷ 7 ∷ 2 ∷ [])
        node).1.tables
    ≡ (if touches db functions functions-HasKeys "books" 7 (arrived inserted_here).payload
        then row_after db functions functions-HasKeys (arrived inserted_here).payload
        else none)
unfolding is_time_pointer on_change_event unmarshal unwrap unwrapped decode replicate
    get_primary_key_map replicate_row lookup
delivered-effect_example =
    delivered-effect (default_config "/tmp") books db functions functions-HasKeys fine inserted_here
      empty_event (3 ∷ 5 ∷ 7 ∷ 2 ∷ []) node "books" 7 books-Keeps refl refl refl sent_bytes refl
      refl refl

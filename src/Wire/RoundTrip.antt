-- ===== src/Wire/RoundTrip.antt =====
-- What a node receives of a change that another has sent: `Unmarshal` of logstream/replication_event.go
-- after `Marshal`.
use marmot.Base.{
  ℕ, ◌*◌, ◌/◌, some, ◌≡◌, refl, ap, ◌∙◌, arith, Bool, true, false, none, [], ◌∷◌, Bool-cases, inl,
  inr,
}
use marmot.Base.Errors.{ok}
use marmot.LogStream.Replicator.{Bytes}
use marmot.Db.Event.{
  Value, nil, sensitive, unwrapped, time, time_pointer, Row, ChangeLogEvent, any_row, map_row,
  is_time, prepared, prepare, wrap, unwrap,
}
use marmot.Db.Event.Wrap.{pointed, unwrap-wrap, wrap_no_time}
use marmot.Wire.{ReplicationEvent, TaggedCbor, change_log_event, marshal, unmarshal}

-- A time behind a pointer, which `Wrap` does not wrap.
unfoldable pub is_time_pointer : Value → Bool
is_time_pointer (time_pointer t) = true
is_time_pointer _ = false

-- The whole second that an instant in nanoseconds is in.
abbrev pub whole_second : ℕ → ℕ
whole_second t = t / 1000000000 * 1000000000

-- The time behind a pointer or a wrapper, without the fraction of its second.
unfoldable pub in_seconds : Value → Value
in_seconds (sensitive (some t)) = sensitive (some (whole_second t))
in_seconds (time_pointer (some t)) = time_pointer (some (whole_second t))
in_seconds v = v

-- What the encoding with the default options keeps of an event of which no time is untagged: all but
-- the table's columns, which are not sent, and the fractions of the seconds, since it writes a time
-- as a number of seconds (`TimeUnix`).
abbrev pub Keeps : TaggedCbor ChangeLogEvent → Type 0
Keeps cbor =
    (e : ReplicationEvent ChangeLogEvent) (bytes : Bytes)
    → any_row is_time e.payload.row ≡ false
    → any_row is_time_pointer e.payload.row ≡ false
    → cbor.encode e ≡ ok bytes
    → cbor.decode bytes
      ≡ ok (record e {
        payload = record e.payload { row = map_row in_seconds e.payload.row; table_info = [] };
      })

-- The event that arrives.
abbrev pub arrived : ReplicationEvent ChangeLogEvent → ReplicationEvent ChangeLogEvent
arrived e = record e {
  payload = record e.payload {
    row = map_row in_seconds (map_row pointed e.payload.row);
    table_info = [];
  };
}

unwrapped-in_seconds : (v : Value) → unwrapped (in_seconds v) ≡ in_seconds (unwrapped v)
unfolding unwrapped in_seconds
unwrapped-in_seconds nil = refl
unwrapped-in_seconds (sensitive none) = refl
unwrapped-in_seconds (sensitive (some t)) = refl
unwrapped-in_seconds (time_pointer none) = refl
unwrapped-in_seconds (time_pointer (some t)) = refl
unwrapped-in_seconds _ = refl

row_unwrapped-in_seconds :
    (row : Row)
    → map_row unwrapped (map_row in_seconds row) ≡ map_row in_seconds (map_row unwrapped row)
row_unwrapped-in_seconds [] = refl
row_unwrapped-in_seconds ((k, v) ∷ row) = cc (unwrapped-in_seconds v, row_unwrapped-in_seconds row)

ok_inj : {A : Type 0} {x y : A} → ok x ≡ ok y → x ≡ y
ok_inj h = ground arith

no_pointer-prepared :
    (row : Row) → any_row is_time_pointer (map_row prepared row) ≡ any_row is_time_pointer row
unfolding is_time_pointer prepared
no_pointer-prepared [] = refl
no_pointer-prepared ((k, time t) ∷ row) = no_pointer-prepared row
no_pointer-prepared ((k, nil) ∷ row) = no_pointer-prepared row
no_pointer-prepared ((k, time_pointer t) ∷ row) = refl
no_pointer-prepared ((k, _) ∷ row) = no_pointer-prepared row

no_pointer-prepare :
    (e : ChangeLogEvent) → any_row is_time_pointer (prepare e).row ≡ any_row is_time_pointer e.row
unfolding prepare
no_pointer-prepare e = elim (Bool-cases (any_row is_time e.row)) [
  | inl h ↦ rw h (no_pointer-prepared e.row)
  | inr h ↦ rw h refl
]

-- With an encoding that keeps the events that it is given but for the fractions of seconds, an
-- event whose row has no time behind a pointer arrives with its node and its values, each time
-- behind a pointer and in whole seconds, and without the table's columns.
pub unmarshal-marshal :
    (cbor : TaggedCbor ChangeLogEvent) (e start : ReplicationEvent ChangeLogEvent) (bytes : Bytes)
    → Keeps cbor
    → cbor.enc_mode ≡ none
    → cbor.dec_mode ≡ none
    → any_row is_time_pointer e.payload.row ≡ false
    → marshal cbor e ≡ ok bytes
    → unmarshal cbor start bytes ≡ (ok tt, arrived e)
unfolding marshal unmarshal wrap unwrap
unmarshal-marshal cbor e start bytes keeps enc dec none_there sent =
    let prepared_event : ReplicationEvent ChangeLogEvent = record e {
      payload = prepare e.payload;
    } in
    let decodes =
      keeps prepared_event bytes (wrap_no_time e.payload (prepare e.payload) refl)
        (no_pointer-prepare e.payload ∙ none_there) (rw (enc, marshal) at (sent)) in
    rw (dec, unmarshal)
      (rw (decodes, row_unwrapped-in_seconds (prepare e.payload).row)
        (ap
          (λ (p : ChangeLogEvent). (
            ok tt,
            record e { payload = record p { row = map_row in_seconds p.row; table_info = [] } },
          ))
          (ok_inj (unwrap-wrap e.payload))))

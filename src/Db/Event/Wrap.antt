-- ===== src/Db/Event/Wrap.antt =====
-- The round trip of `Wrap` and `Unwrap` of db/change_log_event.go.
use marmot.Base.{◌≡◌, refl, arith, false, some, [], ◌∷◌, Bool-cases, inl, inr}
use marmot.Base.Errors.{ok, ◌>>=◌}
use marmot.Db.Event.{
  Value, nil, time, time_pointer, sensitive, Row, ChangeLogEvent, any_row, map_row, is_time,
  prepared, unwrapped, prepare, wrap, unwrap,
}

-- What a receiver sees of a value: a time, and a wrapped one, is behind a pointer.
pub pointed : Value → Value
pointed (time t) = time_pointer (some t)
pointed (sensitive t) = time_pointer t
pointed v = v

unwrapped-prepared : (v : Value) → unwrapped (prepared v) ≡ pointed v
unfolding unwrapped prepared pointed
unwrapped-prepared nil = refl
unwrapped-prepared _ = refl

unwrapped-no_time : (v : Value) → is_time v ≡ false → unwrapped v ≡ pointed v
unfolding unwrapped is_time pointed
unwrapped-no_time nil h = refl
unwrapped-no_time (time t) h = cc
unwrapped-no_time _ h = refl

map_row-prepared : (row : Row) → map_row unwrapped (map_row prepared row) ≡ map_row pointed row
map_row-prepared [] = refl
map_row-prepared ((k, v) ∷ row) = cc (unwrapped-prepared v, map_row-prepared row)

map_row-no_time :
    (row : Row) → any_row is_time row ≡ false → map_row unwrapped row ≡ map_row pointed row
map_row-no_time [] h = refl
map_row-no_time ((k, v) ∷ row) h = ground (arith, unwrapped-no_time v, map_row-no_time row)

-- Wrap and then Unwrap gives the event back with each time behind a pointer, and changes nothing
-- else.
pub unwrap-wrap :
    (e : ChangeLogEvent) → (wrap e >>= unwrap) ≡ ok (record e { row = map_row pointed e.row })
unfolding wrap unwrap prepare
unwrap-wrap e = elim (Bool-cases (any_row is_time e.row)) [
  | inl h ↦ ground (arith, map_row-prepared e.row)
  | inr h ↦ ground (arith, map_row-no_time e.row h)
]

no_time-prepared : (row : Row) → any_row is_time (map_row prepared row) ≡ false
unfolding is_time prepared
no_time-prepared [] = refl
no_time-prepared ((k, time t) ∷ row) = no_time-prepared row
no_time-prepared ((k, nil) ∷ row) = no_time-prepared row
no_time-prepared ((k, _) ∷ row) = no_time-prepared row

-- Of an event that Wrap returns, no time stands outside the wrapper that its tag is registered for.
pub wrap_no_time : (e e' : ChangeLogEvent) → wrap e ≡ ok e' → any_row is_time e'.row ≡ false
unfolding wrap prepare
wrap_no_time e e' h = ground (arith, no_time-prepared e.row)

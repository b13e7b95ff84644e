-- ===== src/Pool.antt =====
-- pool/connection_pool.go: a pool of connections. A connection is known by a number, the channel is a
-- queue of them, and an operation that would block on the channel has no result.
pub mod Owned
pub mod Shared
use marmot.Base.{
  ℕ, zero, suc, ◌+◌, Bool, true, false, Option, none, some, List, [], ◌∷◌, ◌++◌, length, ltb,
  nat_beq, if◌then◌else◌, nat_key,
}
use marmot.Base.Maps.{Map, lookup, insert}
use marmot.Base.Errors.{Error, Result, ok, err, panic, sentinel, wrong_pool}

-- `state` is 1 for an opened connection; the disposer is the pool's number. The handles of the driver,
-- which are set and cleared with the state, are left out.
pub record SqliteConnection : Type 0 where
  pub opened : Bool
  pub disposer : Option ℕ

abbrev pub new_connection : SqliteConnection
new_connection = record { opened = false; disposer = none }

-- The channel's buffer of `size`, and the connections; `next` numbers the next one.
pub record SqlitePool : Type 0 where
  pub number : ℕ
  pub size : ℕ
  pub connections : List ℕ
  pub objects : Map ℕ SqliteConnection
  pub next : ℕ

abbrev or_new : Option SqliteConnection → SqliteConnection
or_new none = new_connection
or_new (some c) = c

abbrev pub object_at : Map ℕ SqliteConnection → ℕ → SqliteConnection
object_at objects i = or_new (lookup i objects)

-- `init`, with what `OpenRaw` returns.
pub init : Option Error → ℕ → SqliteConnection → Option Error × SqliteConnection
init opening pool c = if c.opened then (none, c) else elim opening [
  | some e ↦ (some e, c)
  | none ↦ (none, record { opened = true; disposer = some pool })
]

reset : SqliteConnection → SqliteConnection
reset c = if c.opened then new_connection else c

-- A send on the channel, which blocks when the buffer is full.
send : ℕ → SqlitePool → Option SqlitePool
send i p =
    if ltb (length p.connections) p.size
    then some (record p { connections = p.connections ++ i ∷ [] })
    else none

send_new : Error → Option SqlitePool → Option (Result ℕ × SqlitePool)
send_new e none = none
send_new e (some p) = some (err e, p)

after_init : ℕ → Option Error × SqliteConnection → SqlitePool → Option (Result ℕ × SqlitePool)
unfolding send send_new
after_init i (none, c) p = some (ok i, record p { objects = insert i c p.objects })
after_init i (some e, c) p = send_new e (send p.next (record p { next = suc p.next }))

borrow_from : List ℕ → Option Error → SqlitePool → Option (Result ℕ × SqlitePool)
unfolding after_init init
borrow_from [] opening p = none
borrow_from (i ∷ rest) opening p =
    after_init i (init opening p.number (object_at p.objects i)) (record p { connections = rest })

-- `Borrow`. A connection that does not open is given up, and a new one takes its place.
unfoldable pub borrow : Option Error → SqlitePool → Option (Result ℕ × SqlitePool)
unfolding borrow_from
borrow opening p = borrow_from p.connections opening p

is_disposer : Option ℕ → ℕ → Bool
is_disposer none pool = false
is_disposer (some d) pool = nat_beq d pool

sent : Option SqlitePool → Option (Result (Unit {0}) × SqlitePool)
sent none = none
sent (some p) = some (ok tt, p)

-- `Dispose`, which is also `Return`.
unfoldable pub dispose : ℕ → SqlitePool → Option (Result (Unit {0}) × SqlitePool)
unfolding is_disposer send sent
dispose i p =
    if is_disposer (object_at p.objects i).disposer p.number
    then sent (send i p)
    else some (err (sentinel wrong_pool), p)

-- A connection of a new pool, which is opened unless the pool is lazy.
made : Bool → Option Error → ℕ → Option Error × SqliteConnection
unfolding init
made lazy opening pool = if lazy then (none, new_connection) else init opening pool new_connection

-- The loop of `NewSQLitePool`, with what each `OpenRaw` returns.
fill : ℕ → Bool → (ℕ → Option Error) → SqlitePool → Result SqlitePool
unfolding made
fill zero lazy opening p = ok p
fill (suc n) lazy opening p =
    let (e, c) = made lazy (opening n) p.number in
    let rest = fill n lazy opening (record p {
      connections = p.connections ++ p.next ∷ [];
      objects = insert p.next c p.objects;
      next = suc p.next;
    }) in
    elim e [ some x ↦ err x | none ↦ rest ]

unfoldable pub new_sqlite_pool : ℕ → ℕ → Bool → (ℕ → Option Error) → Result SqlitePool
unfolding fill
new_sqlite_pool number size lazy opening =
    fill size lazy opening
      (record { number = number; size = size; connections = []; objects = []; next = 0 })

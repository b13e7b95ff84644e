-- ===== src/LogStream/State.antt =====
-- logstream/replication_state.go: the highest sequence number of each stream, kept in memory and in
-- a file. A file is its bytes; a fault of the disk is an argument of the call.
pub mod Get
pub mod Durable
use marmot.Base.{
  ℕ, String, ◌≡◌, Bool, true, false, Option, none, some, List, [], ◌∷◌, ◌++◌, leb, ltb, length,
  take, drop, if◌then◌else◌, string_key,
}
use marmot.Base.Maps.{Map, lookup, insert}
use marmot.Base.Errors.{Error, Result, ok, err, panic, sentinel, not_initialized}
use marmot.Base.Codec.{Codec}

abbrev pub SeqMap : Type 0
SeqMap = Map String ℕ

-- `fl` is none where the program's pointer is nil, and else the content of the open file.
pub record ReplicationState : Type 0 where
  pub seq : SeqMap
  pub fl : Option (List ℕ)

-- What the disk does to one call of `save`: an error of `Seek`, or one of the write after some bytes.
pub record SaveFaults : Type 0 where
  pub seek : Option Error
  pub write : Option (Error × ℕ)

abbrev pub no_faults : SaveFaults
no_faults = record { seek = none; write = none }

-- Bytes written at the start of a file that is not truncated.
abbrev pub overwrite : List ℕ → List ℕ → List ℕ
overwrite bytes file = bytes ++ drop (length bytes) file

-- The state before `init`.
abbrev pub unopened : ReplicationState
unopened = record { seq = []; fl = none }

-- `init`: opens the file, which may fail, and reads the map, if there is anything to read. A failed
-- decoding ends the program, so what it leaves in the map is not modelled.
unfoldable pub init :
    Codec SeqMap → Result (List ℕ) → Option Error → Option Error → Result ReplicationState
init codec (err e) seek_end seek_start = err e
init codec (panic m) seek_end seek_start = panic m
init codec (ok file) (some e) seek_start = err e
init codec (ok file) none seek_start =
    if ltb (length file) 1 then ok (record { seq = []; fl = some file }) else elim seek_start [
      | some e ↦ err e
      | none ↦ elim (codec.decode file) [
        | ok seq ↦ ok (record { seq = seq; fl = some file })
        | err e ↦ err e
        | panic m ↦ panic m
      ]
    ]

write :
    Codec SeqMap → ReplicationState → List ℕ → String → ℕ → SaveFaults → Result ℕ × ReplicationState
write codec r file stream seq faults = elim faults.seek [
  | some e ↦ (err e, r)
  | none ↦
      let seqs = insert stream seq r.seq in
      elim faults.write [
        | some (e, n) ↦
            (err e, record { seq = seqs; fl = some (overwrite (take n (codec.encode seqs)) file) })
        | none ↦ (ok seq, record { seq = seqs; fl = some (overwrite (codec.encode seqs) file) })
      ]
]

-- `save` without the lock, which the callers of the model hold by running one at a time.
unfoldable pub save :
    Codec SeqMap → ReplicationState → String → ℕ → SaveFaults → Result ℕ × ReplicationState
unfolding write
save codec r stream seq faults = elim r.fl [
  | none ↦ (err (sentinel not_initialized), r)
  | some file ↦ elim (lookup stream r.seq) [
    | some old ↦ if leb seq old then (ok old, r) else write codec r file stream seq faults
    | none ↦ write codec r file stream seq faults
  ]
]

abbrev or_zero : Option ℕ → ℕ
or_zero none = 0
or_zero (some n) = n

unfoldable pub get : ReplicationState → String → ℕ
get r stream = or_zero (lookup stream r.seq)

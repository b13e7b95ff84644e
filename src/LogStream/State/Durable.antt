-- ===== src/LogStream/State/Durable.antt =====
-- A restart of logstream/replication_state.go: the file of a running node holds its map.
use marmot.Base.{
  ℕ, String, ◌≡◌, ◌⊎◌, refl, arith, List, [], ◌∷◌, none, some, string_key, length, drop,
  length-append, Option, Option-cases, inl, inr, Bool-cases, leb,
}
use marmot.Base.Maps.{lookup, insert}
use marmot.Base.Errors.{Error, ok}
use marmot.Base.Codec.{Codec}
use marmot.LogStream.State.{ReplicationState, SeqMap, SaveFaults, overwrite, init, write, save}

-- Reading the state's own file gives the state back.
pub record IsRecoverable (codec : Codec SeqMap) (r : ReplicationState) : Type 0 where
  pub file : List ℕ
  pub opened : r.fl ≡ some file
  pub restart : init codec (ok file) none none ≡ ok r

module _ (codec : Codec SeqMap) where
  init-overwrite :
      (seqs : SeqMap) (file : List ℕ)
      → init codec (ok (overwrite (codec.encode seqs) file)) none none
        ≡ ok (record { seq = seqs; fl = some (overwrite (codec.encode seqs) file) })
  unfolding init
  init-overwrite seqs file =
      let rest = drop (length (codec.encode seqs)) file in
      ground (
        arith,
        codec.decode-encode seqs rest,
        codec.encode_pos seqs,
        length-append (codec.encode seqs) rest,
      )

  write-IsRecoverable :
      (r : ReplicationState) (file : List ℕ) (stream : String) (seq : ℕ) (seek : Option Error)
      → IsRecoverable codec r
      → IsRecoverable codec (write codec r file stream seq (record { seek = seek; write = none })).1
  unfolding write
  write-IsRecoverable r file stream seq none h = record {
    file = overwrite (codec.encode (insert stream seq r.seq)) file;
    opened = refl;
    restart = init-overwrite (insert stream seq r.seq) file;
  }
  write-IsRecoverable r file stream seq (some e) h = h

  -- `save` returns the old number and changes nothing, or it writes.
  save-cases :
      (r : ReplicationState) (file : List ℕ) (stream : String) (seq : ℕ) (faults : SaveFaults)
      → r.fl ≡ some file
      → ((save codec r stream seq faults).1 ≡ r)
        ⊎ (save codec r stream seq faults ≡ write codec r file stream seq faults)
  unfolding save
  save-cases r file stream seq faults opened = elim (Option-cases (lookup stream r.seq)) [
    | inl e ↦ inr (ground arith)
    | inr (old, e) ↦ elim (Bool-cases (leb seq old)) [
      | inl low ↦ inl (ground arith)
      | inr high ↦ inr (ground arith)
    ]
  ]

  -- A `save` whose write does not fail, though its seek may, keeps the state recoverable.
  pub save-IsRecoverable :
      (r : ReplicationState) (stream : String) (seq : ℕ) (seek : Option Error)
      → IsRecoverable codec r
      → IsRecoverable codec (save codec r stream seq (record { seek = seek; write = none })).1
  save-IsRecoverable r stream seq seek h =
      let faults : SaveFaults = record { seek = seek; write = none } in
      elim (save-cases r h.file stream seq faults h.opened) [
        | inl same ↦ rw same h
        | inr wrote ↦ rw wrote (write-IsRecoverable r h.file stream seq seek h)
      ]

  -- The calls of `save` that a node makes, each with the error of its `Seek`, if any.
  pub saves : ReplicationState → List (String × ℕ × Option Error) → ReplicationState
  saves r [] = r
  saves r ((stream, seq, seek) ∷ calls) =
      saves (save codec r stream seq (record { seek = seek; write = none })).1 calls

  saves-IsRecoverable :
      (r : ReplicationState) (calls : List (String × ℕ × Option Error))
      → IsRecoverable codec r
      → IsRecoverable codec (saves r calls)
  unfolding saves
  saves-IsRecoverable r [] h = h
  saves-IsRecoverable r ((stream, seq, seek) ∷ calls) h =
      saves-IsRecoverable (save codec r stream seq (record { seek = seek; write = none })).1 calls
        (save-IsRecoverable r stream seq seek h)

  init-IsRecoverable :
      (file : List ℕ) (r : ReplicationState)
      → init codec (ok file) none none ≡ ok r
      → IsRecoverable codec r
  unfolding init
  init-IsRecoverable file r e = record { file = file; opened = ground arith; restart = e }

  -- A node that starts on a file that it can read, makes any calls of save whose writes succeed,
  -- and starts again on the file that it left, has the map that it had.
  pub init-saves :
      (file : List ℕ) (r : ReplicationState) (calls : List (String × ℕ × Option Error))
      → init codec (ok file) none none ≡ ok r
      → IsRecoverable codec (saves r calls)
  init-saves file r calls e = saves-IsRecoverable r calls (init-IsRecoverable file r e)

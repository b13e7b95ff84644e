-- ===== src/LogStream/Listen.antt =====
-- `Listen` and `invokeListener` of logstream/replicator.go. What the subscription yields is a list of
-- turns; between two of them another goroutine of the node may call `save`.
pub mod Order
pub mod Replay
pub mod Skips
pub mod Retry
use marmot.Base.{
  ℕ, zero, suc, ◌+◌, String, Bool, true, false, Option, none, some, List, [], ◌∷◌, nat_beq, leb,
  if◌then◌else◌, nat_key,
}
use marmot.Base.Maps.{lookup}
use marmot.Base.Errors.{Error, Result, ok, err, panic, is_value, errors_is, canceled, timeout}
use marmot.Base.Codec.{Codec}
use marmot.LogStream.State.{ReplicationState, SeqMap, SaveFaults, save, get}
use marmot.LogStream.Names.{stream_name}
use marmot.LogStream.Replicator.{Replicator, Compressor, Bytes}

abbrev pub max_replicate_retries : ℕ
max_replicate_retries = 7

-- A delivery, with what its client calls return: `Metadata`, `InProgress` before each retry, `Ack`.
pub record Message : Type 0 where
  pub stream : String
  pub sequence : ℕ
  pub content : Bytes
  pub metadata : Option Error
  pub in_progress : ℕ → Option Error
  pub ack : Option Error
  pub faults : SaveFaults

-- What one `NextMsg` returns, or a `save` that another goroutine makes meanwhile.
pub data Turn : Type 0 where
  failed : Error → Turn
  delivered : Message → Turn
  elsewhere : String → ℕ → SaveFaults → Turn

-- The sequence map, the calls of `Ack` and `Nak`, newest first, and the world of the callback.
pub record Listening (W : Type 0) : Type 0 where
  pub rep_state : ReplicationState
  pub acked : List ℕ
  pub naked : List ℕ
  pub world : W

-- The loop goes on with `savedSeq`, or returns.
pub data Outcome (W : Type 0) : Type 0 where
  continue : ℕ → Listening W → Outcome W
  stop : Result (Unit {0}) → Listening W → Outcome W

module _ {J W : Type 0} (codec : Codec SeqMap) (zstd : Compressor) (r : Replicator J)
    (callback : Bytes → W → Result (Unit {0}) × W) where
  -- `InProgress` is not called before the first attempt.
  progress : Message → ℕ → Option Error
  progress msg attempt = if nat_beq attempt 0 then none else msg.in_progress attempt

  -- The retry loop: the rounds left, the attempt, and the error so far.
  attempts : ℕ → ℕ → Message → Bytes → Result (Unit {0}) → W → Result (Unit {0}) × W
  unfolding progress
  attempts zero attempt msg payload last w = (last, w)
  attempts (suc rounds) attempt msg payload last w = elim (progress msg attempt) [
    | some e ↦ (err e, w)
    | none ↦
        let (result, w') = callback payload w in
        elim result [
          | ok _ ↦ (ok tt, w')
          | panic m ↦ (panic m, w')
          | err e ↦
              let again = attempts rounds (attempt + 1) msg payload (err e) w' in
              if is_value e canceled then (err e, w') else again
        ]
  ]

  unfoldable pub decoded : Bytes → Result Bytes
  decoded content = if r.compression_enabled then zstd.decompress content else ok content

  unfoldable pub invoke_listener : Message → W → Result (Unit {0}) × W
  unfolding attempts decoded
  invoke_listener msg w = elim (decoded msg.content) [
    | err e ↦ (err e, w)
    | panic m ↦ (panic m, w)
    | ok payload ↦ attempts max_replicate_retries 0 msg payload (ok tt) w
  ]

  -- After the callback: save the number and acknowledge, or refuse and return.
  settle : Message → Result (Unit {0}) → Listening W → Outcome W
  settle msg (panic m) st = stop (panic m) st
  settle msg (err e) st =
      let st' : Listening W = record st { naked = msg.sequence ∷ st.naked } in
      if errors_is e canceled then stop (ok tt) st' else stop (err e) st'
  settle msg (ok _) st =
      let (saved, rep_state) = save codec st.rep_state msg.stream msg.sequence msg.faults in
      let st' : Listening W = record st { rep_state = rep_state } in
      elim saved [
        | err e ↦ stop (err e) st'
        | panic m ↦ stop (panic m) st'
        | ok saved_seq ↦ elim msg.ack [
          | some e ↦ stop (err e) st'
          | none ↦ continue saved_seq (record st' { acked = msg.sequence ∷ st.acked })
        ]
      ]

  handle : Message → ℕ → Listening W → Outcome W
  handle msg saved_seq st =
      if leb msg.sequence saved_seq
      then continue saved_seq st
      else (let (result, w') = invoke_listener msg st.world in
          settle msg result (record st { world = w' }))

  pub turn : Turn → ℕ → Listening W → Outcome W
  unfolding handle settle
  turn (failed e) saved_seq st =
      if errors_is e timeout then continue saved_seq st else stop (err e) st
  turn (elsewhere stream seq faults) saved_seq st =
      continue saved_seq (record st { rep_state = (save codec st.rep_state stream seq faults).1 })
  turn (delivered msg) saved_seq st = elim msg.metadata [
    | some e ↦ stop (err e) st
    | none ↦ handle msg saved_seq st
  ]

  proceed :
      Outcome W
      → (ℕ → Listening W → Result (Unit {0}) × Listening W)
      → Result (Unit {0}) × Listening W
  proceed (continue saved_seq st) rest = rest saved_seq st
  proceed (stop result st) rest = (result, st)

  -- `for sub.IsValid()`: the subscription is valid for as long as there are turns.
  pub loop : List Turn → ℕ → Listening W → Result (Unit {0}) × Listening W
  unfolding proceed
  loop [] saved_seq st = (ok tt, st)
  loop (t ∷ turns) saved_seq st = proceed (turn t saved_seq st) (loop turns)

  -- `Listen`, with what `SubscribeSync` returns and the turns that follow.
  pub listen : ℕ → Option Error → List Turn → Listening W → Result (Unit {0}) × Listening W
  unfolding loop
  listen shard subscribed turns st = elim (lookup shard r.stream_map) [
    | none ↦ (panic "nil stream context", st)
    | some js ↦ elim subscribed [
      | some e ↦ (err e, st)
      | none ↦ loop turns (get st.rep_state (stream_name r.config shard r.compression_enabled)) st
    ]
  ]

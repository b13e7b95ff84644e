-- ===== src/Wire.antt =====
-- core/events.go and logstream/replication_event.go: a change as it goes over the wire.
pub mod RoundTrip
use marmot.Base.{ℕ, Option, none, some, List}
use marmot.Base.Errors.{Error, Result, ok, err, panic, ◌>>=◌}
use marmot.LogStream.Replicator.{Bytes}
use marmot.Db.Event.{ChangeLogEvent, wrap, unwrap}

-- `ReplicableEvent`
pub record ReplicableEvent (T : Type 0) : Type 0 where
  pub wrap_event : T → Result T
  pub unwrap_event : T → Result T

instance abbrev pub change_log_event : ReplicableEvent ChangeLogEvent
change_log_event = record { wrap_event = wrap; unwrap_event = unwrap }

pub record ReplicationEvent (T : Type 0) : Type 0 where
  pub from_node_id : ℕ
  pub payload : T

-- CBOR with the program's tags: whether the modes can be made, and what they do.
pub record TaggedCbor (T : Type 0) : Type 0 where
  pub enc_mode : Option Error
  pub dec_mode : Option Error
  pub encode : ReplicationEvent T → Result Bytes
  pub decode : Bytes → Result (ReplicationEvent T)

module _ {T : Type 0} ⦃ev : ReplicableEvent T⦄ (cbor : TaggedCbor T) where
  encode_in : Option Error → ReplicationEvent T → Result Bytes
  encode_in (some x) e = err x
  encode_in none e = cbor.encode e

  unfoldable pub marshal : ReplicationEvent T → Result Bytes
  unfolding encode_in
  marshal e = ev.wrap_event e.payload >>= λ wrapped.
      encode_in cbor.enc_mode (record e { payload = wrapped })

  after_unwrap : ReplicationEvent T → Result T → Result (Unit {0}) × ReplicationEvent T
  after_unwrap e (ok p) = (ok tt, record e { payload = p })
  after_unwrap e (err x) = (err x, e)
  after_unwrap e (panic m) = (panic m, e)

  -- The payload of the decoded event is unwrapped in place.
  after_decode :
      ReplicationEvent T → Result (ReplicationEvent T) → Result (Unit {0}) × ReplicationEvent T
  unfolding after_unwrap
  after_decode e (ok decoded) = after_unwrap decoded (ev.unwrap_event decoded.payload)
  after_decode e (err x) = (err x, e)
  after_decode e (panic m) = (panic m, e)

  -- With no mode to decode in, no error is returned and the event stays.
  decode_in : Option Error → ReplicationEvent T → Bytes → Result (Unit {0}) × ReplicationEvent T
  unfolding after_decode
  decode_in (some x) e bytes = (ok tt, e)
  decode_in none e bytes = after_decode e (cbor.decode bytes)

  -- `Unmarshal` into the event `e`.
  unfoldable pub unmarshal : ReplicationEvent T → Bytes → Result (Unit {0}) × ReplicationEvent T
  unfolding decode_in
  unmarshal e bytes = decode_in cbor.dec_mode e bytes

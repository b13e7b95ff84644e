-- ===== src/Handlers/Delivery.antt =====
-- A change that one node has marshaled, in the hands of `onChangeEvent` (marmot.go) of another.
use marmot.Base.{String, ◌≡◌, true, false, none, if◌then◌else◌, Key}
use marmot.Base.Errors.{ok}
use marmot.Cfg.{Configuration}
use marmot.LogStream.Replicator.{Bytes}
use marmot.Db.Event.{ChangeLogEvent, any_row}
use marmot.Db.Store.{SqliteStreamDb}
use marmot.Db.Replicate.{Engine, TxFaults}
use marmot.Db.Replicate.Laws.{HasKeys}
use marmot.Db.Replicate.Effect.{touches, row_after, replicate-effect}
use marmot.Wire.{ReplicationEvent, TaggedCbor, change_log_event, marshal}
use marmot.Wire.RoundTrip.{is_time_pointer, Keeps, arrived, unmarshal-marshal}
use marmot.Handlers.{Node, on_change_event, replicate_received}

module _ {W D K : Type 0} ⦃key : Key K⦄ (config : Configuration) (cbor : TaggedCbor ChangeLogEvent)
    (conn : SqliteStreamDb W) (engine : Engine D) (keys : HasKeys conn engine K) where
  -- With an encoding that keeps events but for the fractions of seconds, and an engine whose
  -- statements act on the rows by key: if a node that replicates and is not canceled accepts in
  -- onChangeEvent what another node has marshaled of a change, its tables hold the change's row
  -- under its key, each time behind a pointer and in whole seconds, or no row after a deletion, and
  -- all other rows as before.
  pub delivered-effect :
      (faults : TxFaults) (e start : ReplicationEvent ChangeLogEvent) (bytes : Bytes) (n : Node W D)
      (t : String) (k : K)
      → Keeps cbor
      → cbor.enc_mode ≡ none
      → cbor.dec_mode ≡ none
      → any_row is_time_pointer e.payload.row ≡ false
      → marshal cbor e ≡ ok bytes
      → n.canceled ≡ false
      → config.replicate ≡ true
      → (on_change_event config cbor conn engine faults start bytes n).0 ≡ ok tt
      → keys.row_at t k (on_change_event config cbor conn engine faults start bytes n).1.tables ≡ (
          if touches conn engine keys t k (arrived e).payload
          then row_after conn engine keys (arrived e).payload
          else keys.row_at t k n.tables)
  unfolding on_change_event replicate_received
  delivered-effect faults e start bytes n t k kept enc dec none_there sent running replicates fine =
      let got = unmarshal-marshal cbor e start bytes kept enc dec none_there sent in
      rw (running, replicates, got)
        (replicate-effect conn engine keys (arrived e).payload faults n.tables t k
          (rw (running, replicates, got) at (fine)))

-- ===== src/Handlers/Pipeline.antt =====
-- From the change log of one node to the streams: `watchChanges` of db/change_log.go over `onTableChanged`
-- of marmot.go, which publishes through logstream/replicator.go.
use mathlib.Core.List.{append_assoc, append-nil}
use marmot.Base.{
  ℕ, suc, ◌*◌, ◌≤◌, String, ◌≡◌, ◌≢◌, refl, sym, ap, ◌∙◌, true, false, none, some, List, [], ◌∷◌,
  ◌++◌, map, All, length,
}
use marmot.Base.Errors.{Result, ok}
use marmot.Base.Codec.{Codec}
use marmot.Cfg.{Configuration}
use marmot.LogStream.State.{SeqMap, no_faults}
use marmot.LogStream.Replicator.{Replicator, Compressor, Ack, Bytes}
use marmot.LogStream.Publish.{encoded}
use marmot.LogStream.Publish.Shard.{IsSharded}
use marmot.LogStream.Publish.Sends.{Takes, publish-Sent}
use marmot.Db.Event.{ChangeLogEvent, Encoder}
use marmot.Db.Event.Total.{IsTotal, hash-ok}
use marmot.Db.Store.{SqliteStreamDb, Store}
use marmot.Db.ChangeLog.{order_by_id}
use marmot.Db.ChangeLog.Events.{GoesOn, events}
use marmot.Db.ChangeLog.Conserved.{IsQuiet, consumed}
use marmot.Db.Watch.{Watcher, Turn, watch_changes}
use marmot.Db.Watch.Drained.{IsAlone, watch_changes-drains}
use marmot.Wire.{TaggedCbor, change_log_event, marshal}
use marmot.Handlers.{Node, on_table_changed, publish_marshaled, publish_hashed}

module _ {W J : Type 0} (config : Configuration) (cbor : TaggedCbor ChangeLogEvent)
    (codec : Codec SeqMap) (zstd : Compressor)
    (js_publish : J → String → Bytes → W → Result Ack × W) (r : Replicator J) (enc : Encoder)
    (node_id : ℕ) (messages : W → List Bytes) (message_of : ChangeLogEvent → Bytes) where
  -- A node that publishes, over streams that take each message, and with codecs that do not fail:
  -- `message_of` is the message of a change.
  pub record IsPublisher : Type 0 where
    pub publishes : config.publish ≡ true
    pub sharded : IsSharded r
    pub takes : Takes codec zstd js_publish r messages
    pub hashes : IsTotal enc
    pub marshals :
        (e : ChangeLogEvent)
        → (bytes : Bytes) × (marshal cbor (record { from_node_id = node_id; payload = e })
            ≡ ok bytes)
          × (encoded codec zstd js_publish r bytes ≡ ok (message_of e))

  module _ {D : Type 0} where
    -- The callback of a node whose disk has no faults.
    abbrev pub published_by : ChangeLogEvent → Node W D → Result (Unit {0}) × Node W D
    published_by = on_table_changed config cbor codec zstd js_publish r enc node_id (λ _. no_faults)

    -- It is not canceled, and the file of its sequence map is open.
    abbrev pub IsUp : Node W D → Type 0
    IsUp n = (n.canceled ≡ false) × (n.running.rep_state.fl ≢ none)

    abbrev sent : Node W D → List Bytes
    sent n = messages n.running.world

    published_by-sends :
        (e : ChangeLogEvent) (n : Node W D)
        → IsPublisher
        → IsUp n
        → ((published_by e n).0 ≡ ok tt)
          × IsUp (published_by e n).1
          × (sent (published_by e n).1 ≡ sent n ++ message_of e ∷ [])
    unfolding on_table_changed publish_marshaled publish_hashed
    published_by-sends e n p (up, opened) =
        let (bytes, marshaled, packed) = p.marshals e in
        let (h, cache, hashed) = hash-ok enc n.pk_cache e p.hashes in
        let (fine, kept, more) =
          publish-Sent codec zstd js_publish r messages h bytes (message_of e) n.running p.sharded
            p.takes packed opened in
        rw (up, p.publishes, marshaled, hashed) (fine, (refl, kept), more)

    consumed-sends :
        (es : List ChangeLogEvent) (n : Node W D)
        → IsPublisher
        → IsUp n
        → sent (consumed published_by n es) ≡ sent n ++ map message_of es
    consumed-sends [] n p up = sym (append-nil (sent n))
    consumed-sends (e ∷ es) n p up =
        let (_, up', more) = published_by-sends e n p up in
        consumed-sends es (published_by e n).1 p up'
        ∙ ap (λ ms. ms ++ map message_of es) more
        ∙ append_assoc (sent n) (message_of e ∷ []) (map message_of es)

    -- A node that publishes and is not canceled, with the file of its sequence map open and a disk
    -- without faults, over streams that take each message and codecs that do not fail, with
    -- OnChange set to onTableChanged, the lock free, every global entry linked to a pending row of
    -- its own, unique ids in each change log and no failing call of the database: if nobody else
    -- writes, and each turn of watchChanges opens its connection and is woken by the timer or by an
    -- event that is not a Chmod alone, then as many turns as the limit needs leave the global log
    -- empty, and the streams have taken one message more for each global entry, in the order of
    -- their ids.
    pub watch_changes-sends :
        {A : Type 0} (conn : SqliteStreamDb (Node W D)) (watcher : Watcher A) (limit : ℕ)
        (path : String) (now polling_interval : ℕ) (turns : List (Turn (Node W D))) (files : A)
        (s : Store (Node W D))
        → IsPublisher
        → conn.on_change ≡ some published_by
        → IsQuiet conn s
        → IsUp s.world
        → All (IsAlone conn watcher limit path) turns
        → length s.global ≤ suc (length turns) * limit
        → let run = watch_changes conn watcher limit path now polling_interval turns files s in
          (run.0 ≡ ok tt)
          × (run.1.global ≡ [])
          × (sent run.1.world
              ≡ sent s.world ++ map message_of (events conn s.logs (order_by_id s.global)))
    watch_changes-sends conn watcher limit path now polling_interval turns files s p watched quiet
          up alone enough =
        let (fine, emptied, world) =
          watch_changes-drains conn watcher limit path published_by watched IsUp
            (λ e n up. let (ok_is, up', _) = published_by-sends e n p up in (goes_on_ok ok_is, up'))
            now polling_interval turns files s quiet up alone enough in
        (
          fine,
          emptied,
          ap sent world ∙ consumed-sends (events conn s.logs (order_by_id s.global)) s.world p up,
        )
      where
        goes_on_ok : {r : Result (Unit {0})} → r ≡ ok tt → GoesOn conn r
        goes_on_ok e = rw e tt

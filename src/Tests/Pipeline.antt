-- ===== src/Tests/Pipeline.antt =====
-- A change of one node, from its change log into the streams.
use marmot.Base.{
  ℕ, suc, ◌≤◌, ◌*◌, ◌+◌, String, ◌≡◌, ◌≢◌, false, refl, arith, subst, inl, inr, Bool-cases, none,
  some, List, [], ◌∷◌, ◌++◌, map, length, string_key,
}
use marmot.Base.Maps.{lookup, insert}
use marmot.Base.Errors.{Result, ok}
use marmot.LogStream.Replicator.{Ack, Bytes}
use marmot.LogStream.Publish.{encoded}
use marmot.Db.Event.{ChangeLogEvent, any_row, is_time, prepare, wrap}
use marmot.Db.Event.Total.{IsTotal}
use marmot.Db.Store.{SqliteStreamDb, Store, meta_table}
use marmot.Db.ChangeLog.{capture, order_by_id}
use marmot.Db.ChangeLog.Invariant.{capture-IsLinked}
use marmot.Db.ChangeLog.Calm.{IsKeyed}
use marmot.Db.ChangeLog.Events.{AreKeyed, events}
use marmot.Db.ChangeLog.Conserved.{IsQuiet}
use marmot.Db.Watch.{Watcher, ticked, Turn, watch_changes}
use marmot.Wire.{TaggedCbor, change_log_event, marshal}
use marmot.Handlers.{Node}
use marmot.Handlers.Pipeline.{IsPublisher, published_by, watch_changes-sends}
use marmot.Tests.SeqMapCodec.{seq_map_codec}
use marmot.Tests.LogStream.{zstd, two_shards, two_shards-IsSharded, fresh, plain}
use marmot.Tests.Db.{book, id_column, at_column, encoder, some_inj}

-- Streams that append, and an encoding that keeps the sender and the change's id.
abbrev World : Type 0
World = List Bytes

abbrev js_publish : ℕ → String → Bytes → World → Result Ack × World
js_publish js subject bytes w =
    (ok (record { stream = "marmot-changes-c-1"; sequence = length w + 1 }), w ++ bytes ∷ [])

abbrev ids : TaggedCbor ChangeLogEvent
ids = record {
  enc_mode = none;
  dec_mode = none;
  encode = λ e. ok (e.from_node_id ∷ e.payload.id ∷ []);
  decode = λ bytes. ok (record { from_node_id = 0; payload = book 0 0 });
}

abbrev message_of : ChangeLogEvent → Bytes
message_of e = 3 ∷ e.id ∷ []

encoder-IsTotal : IsTotal encoder
encoder-IsTotal = record {
  start = (_, refl);
  text = λ s. (_, refl);
  pair = λ s v. (_, refl);
  end = (_, refl);
}

message_marshals :
    (e : ChangeLogEvent)
    → (bytes : Bytes) × (marshal ids (record { from_node_id = 3; payload = e }) ≡ ok bytes)
      × (encoded seq_map_codec zstd js_publish two_shards bytes ≡ ok (message_of e))
unfolding marshal wrap prepare encoded
message_marshals e = elim (Bool-cases (any_row is_time e.row)) [
  | inl timed ↦ (message_of e, rw timed refl, refl)
  | inr other ↦ (message_of e, rw other refl, refl)
]

publisher :
    IsPublisher plain ids seq_map_codec zstd js_publish two_shards encoder 3 (λ w. w) message_of
publisher = record {
  publishes = refl;
  sharded = two_shards-IsSharded;
  takes = λ js subject bytes w. (_, _, refl, refl);
  hashes = encoder-IsTotal;
  marshals = message_marshals;
}

abbrev node : Node World Unit
node = record {
  canceled = false;
  pulses = 0;
  pk_cache = [];
  running = record { rep_state = fresh; snapshots_started = 0; world = (9 ∷ []) ∷ [] };
  tables = tt;
}

abbrev conn : SqliteStreamDb (Node World Unit)
conn = record {
  on_change = some (
      published_by plain ids seq_map_codec zstd js_publish two_shards encoder 3 (λ w. w)
        message_of);
  prefix = "__marmot__";
  watch_tables_schema = ("books", id_column ∷ at_column ∷ []) ∷ [];
}

abbrev empty : Store (Node World Unit)
empty = record {
  logs = (meta_table "__marmot__" "books" "change_log", record { rows = []; next_id = 1 }) ∷ [];
  global = [];
  next_global = 1;
  publish_lock = false;
  pending_publish = 0;
  published_count = 0;
  world = node;
  faults = [];
}

abbrev changed : Store (Node World Unit)
changed = capture conn 0 "books" "insert" (book 1 5).row 100 empty

changed-AreKeyed : AreKeyed conn changed.logs
unfolding capture lookup insert meta_table
changed-AreKeyed log t found =
    elim (Bool-cases (string_key.same (meta_table "__marmot__" "books" "change_log") log)) [
      | inl e ↦ subst (λ u. IsKeyed u.rows) (some_inj (rw e at (found))) (tt, tt)
      | inr e ↦ absurd (ground arith)
    ]

changed-IsQuiet : IsQuiet conn changed
unfolding capture lookup insert meta_table
changed-IsQuiet = record {
  free = refl;
  linked =
      capture-IsLinked conn 0 "books" "insert" (book 1 5).row 100 empty
        (record { linked = tt; apart = tt; fresh = tt });
  keyed = changed-AreKeyed;
  calm = refl;
}

abbrev watcher : Watcher Unit
watcher = record { add = λ file w. (none, w); chmod = 16 }

abbrev tick : Turn (Node World Unit)
tick = record { now = 500; opened = none; begun = none; writes = λ s. s; woken = ticked }

one_there : length changed.global ≤ suc (length (tick ∷ [])) * 1
unfolding capture lookup insert meta_table
one_there = omega arith

open_file : changed.world.running.rep_state.fl ≢ none
unfolding capture lookup insert meta_table
open_file = λ h. ground arith

not_canceled : changed.world.canceled ≡ false
unfolding capture lookup insert meta_table
not_canceled = refl

watch_changes-sends_example :
    let run = watch_changes conn watcher 1 "/db" 0 500 (tick ∷ []) tt changed in
    (run.0 ≡ ok tt)
    × (run.1.global ≡ [])
    × (run.1.world.running.world
        ≡ changed.world.running.world
          ++ map message_of (events conn changed.logs (order_by_id changed.global)))
watch_changes-sends_example =
    watch_changes-sends plain ids seq_map_codec zstd js_publish two_shards encoder 3 (λ w. w)
      message_of conn watcher 1 "/db" 0 500 (tick ∷ []) tt changed publisher refl changed-IsQuiet
      (not_canceled, open_file) (record { opens = refl; no_writes = λ s. refl; pulse = tt }, tt)
      one_there

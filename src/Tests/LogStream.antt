-- ===== src/Tests/LogStream.antt =====
-- The listed results of logstream/, each at a small input.
use marmot.Base.{
  suc, if◌then◌else◌, ℕ, String, ◌≡◌, ◌≢◌, ◌⊎◌, refl, sym, arith, ◌+◌, ◌<◌, ◌≤◌, true, false,
  Option, none, some, List, [], ◌∷◌, length, keep_if, map, ltb, nat_key, string_key,
}
use marmot.Base.Maps.{lookup}
use marmot.Base.Decimal.{decimal}
use marmot.Base.Errors.{Error, Result, ok, err, library, sentinel, timeout, is_value, canceled}
use marmot.Cfg.{Configuration, default_config}
use marmot.LogStream.State.{ReplicationState, init, save, get, no_faults}
use marmot.LogStream.State.Durable.{IsRecoverable, saves, init-saves}
use marmot.LogStream.Names.{stream_name}
use marmot.LogStream.Replicator.{Replicator, Compressor, Ack, Running, Bytes}
use marmot.LogStream.Publish.{publish, shard_id, encoded, record_ack}
use marmot.LogStream.Publish.Shard.{IsSharded, Published, publish-Published}
use marmot.LogStream.Snapshots.{NatsSnapshot, restore_snapshot}
use marmot.LogStream.Snapshots.Behind.{Missed, CaughtUp, restore_snapshot_if_Missed}
use marmot.LogStream.Listen.{
  Message, failed, delivered, elsewhere, Listening, decoded, invoke_listener, listen,
}
use marmot.LogStream.Listen.Order.{Below, listen_in_order}
use marmot.LogStream.Listen.Skips.{listen_skips_ahead}
use marmot.LogStream.Listen.Replay.{IsCalm, Ran, apply_all, applies, listen_replays}
use marmot.LogStream.Listen.Retry.{called, Fails, invoke_listener_retries}
use marmot.Tests.SeqMapCodec.{seq_map_codec}

abbrev two_saves : List (String × ℕ × Option Error)
two_saves = ("m-c-1", 4, none) ∷ ("m-c-1", 3, some (library "seek")) ∷ []

abbrev pub fresh : ReplicationState
fresh = record { seq = []; fl = some [] }

init-saves_example : IsRecoverable seq_map_codec (saves seq_map_codec fresh two_saves)
unfolding init
init-saves_example = init-saves seq_map_codec [] fresh two_saves refl

abbrev seen_three : ReplicationState
seen_three = record { seq = ("marmot-changes-1", 3) ∷ []; fl = some [] }

abbrev pub plain : Configuration
plain = default_config "/tmp"

-- A stream that gives every message the next number, and keeps the payloads.
abbrev World : Type 0
World = List Bytes

abbrev js_publish : ℕ → String → Bytes → World → Result Ack × World
js_publish js subject bytes w =
    (ok (record { stream = "marmot-changes-c-1"; sequence = length w + 1 }), bytes ∷ w)

abbrev pub zstd : Compressor
zstd = record { compress = λ bytes. ok (40 ∷ bytes); decompress = λ bytes. ok bytes }

abbrev pub two_shards : Replicator ℕ
two_shards = record {
  config = plain;
  shards = 2;
  compression_enabled = false;
  stream_map = (1, 10) ∷ (2, 20) ∷ [];
}

abbrev running : Running World
running = record { rep_state = seen_three; snapshots_started = 0; world = [] }

pub stream_of_two : (shard : ℕ) → 0 < shard → shard ≤ 2 → lookup shard two_shards.stream_map ≢ none
unfolding lookup
stream_of_two shard lo hi h = ground arith

abbrev pub two_shards-IsSharded : IsSharded two_shards
two_shards-IsSharded = record { some_shard = omega arith; stream_of = stream_of_two }

publish-Published_example :
    Published seq_map_codec zstd js_publish two_shards 4
      (7 ∷ [])
      running
      (publish seq_map_codec zstd js_publish two_shards 4 (7 ∷ []) no_faults running).1
unfolding publish save lookup shard_id encoded record_ack
publish-Published_example =
    publish-Published seq_map_codec zstd js_publish two_shards 4 (7 ∷ []) no_faults running
      two_shards-IsSharded refl

abbrev message : ℕ → Message
message n = record {
  stream = "marmot-changes-1";
  sequence = n;
  content = n ∷ [];
  metadata = none;
  in_progress = λ i. none;
  ack = none;
  faults = no_faults;
}

-- A callback that keeps what it is given, and refuses the payload 9 while it has seen fewer than three.
abbrev keeps : Bytes → World → Result (Unit {0}) × World
keeps payload w = (ok tt, payload ∷ w)

abbrev listening : Listening World
listening = record { rep_state = seen_three; acked = []; naked = []; world = [] }

listen_in_order_example :
    (bound : ℕ) × Below bound
      (listen seq_map_codec zstd two_shards keeps 1 none
        (delivered (message 5) ∷ delivered (message 4) ∷ failed (sentinel timeout) ∷ [])
        listening).1.acked
listen_in_order_example =
    listen_in_order seq_map_codec zstd two_shards keeps 1 none
      (delivered (message 5) ∷ delivered (message 4) ∷ failed (sentinel timeout) ∷ []) listening
      refl

name-1 : stream_name plain 1 false ≡ "marmot-changes-1"
unfolding stream_name decimal
name-1 = refl

keeps_all :
    (n : ℕ) (w : World)
    → (invoke_listener seq_map_codec zstd two_shards keeps (message n) w).0 ≡ ok tt
unfolding invoke_listener decoded
keeps_all n w = refl

message-IsCalm : (n : ℕ) → IsCalm (stream_name plain 1 false) (message n)
message-IsCalm n = record { of_stream = sym name-1; metadata = refl; ack = refl; faults = refl }

shard-1_known : lookup 1 two_shards.stream_map ≢ none
unfolding lookup
shard-1_known h = ground arith

abbrev shard-1_name : String
shard-1_name = stream_name plain 1 false

abbrev three_messages : List Message
three_messages = message 3 ∷ message 5 ∷ message 6 ∷ []

listen_replays_example :
    Ran seq_map_codec zstd two_shards keeps shard-1_name
      (apply_all seq_map_codec zstd two_shards keeps shard-1_name
        (keep_if (λ msg. ltb (get seen_three shard-1_name) msg.sequence) three_messages))
      listening
      (listen seq_map_codec zstd two_shards keeps 1 none (map delivered three_messages) listening)
unfolding lookup invoke_listener decoded
listen_replays_example =
    listen_replays seq_map_codec zstd two_shards keeps 1 listening three_messages 0 shard-1_known
      (λ h. ground arith) (message-IsCalm 3, (message-IsCalm 5, (message-IsCalm 6, tt)))
      (keeps_all 3, (keeps_all 5, (keeps_all 6, tt)))
      (omega arith, (omega arith, (omega arith, tt)))

seen_three_name : get seen_three shard-1_name < 5
unfolding get lookup stream_name decimal
seen_three_name = omega arith

listen_skips_ahead_example :
    let run =
      listen seq_map_codec zstd two_shards keeps 1 none
        (elsewhere shard-1_name 7 no_faults
          ∷ delivered (message 5)
          ∷ map delivered (message 6 ∷ []))
        listening in
    (run.0 ≡ ok tt)
    × (run.1.world ≡ applies seq_map_codec zstd two_shards keeps shard-1_name (message 5) [])
    × (run.1.acked ≡ 5 ∷ [])
listen_skips_ahead_example =
    listen_skips_ahead seq_map_codec zstd two_shards keeps 1 listening 7 (message 5)
      (message 6 ∷ []) shard-1_known (λ h. ground arith) (message-IsCalm 5) (keeps_all 5)
      seen_three_name (omega arith) ((refl, omega arith), tt)

-- A callback that refuses while its world is below 2, and counts its calls.
abbrev third_time : Bytes → ℕ → Result (Unit {0}) × ℕ
third_time payload w = if ltb w 2 then (err (library "busy"), w + 1) else (ok tt, w + 1)

invoke_listener_retries_example :
    ((k : ℕ)
      → k < 7
      → Fails seq_map_codec zstd two_shards third_time (message 5) (5 ∷ []) k 0
      → (third_time
          (5 ∷ [])
          (called seq_map_codec zstd two_shards third_time (message 5) (5 ∷ []) k 0)).0
        ≡ ok tt
      → invoke_listener seq_map_codec zstd two_shards third_time (message 5) 0
        ≡ (ok tt, called seq_map_codec zstd two_shards third_time (message 5) (5 ∷ []) (suc k) 0))
    × (Fails seq_map_codec zstd two_shards third_time (message 5) (5 ∷ []) 7 0
        → (e : Error) × (invoke_listener seq_map_codec zstd two_shards third_time (message 5) 0
            ≡ (err e, called seq_map_codec zstd two_shards third_time (message 5) (5 ∷ []) 7 0)))
    × ((k : ℕ) (x : Error)
        → k < 7
        → Fails seq_map_codec zstd two_shards third_time (message 5) (5 ∷ []) k 0
        → (third_time
            (5 ∷ [])
            (called seq_map_codec zstd two_shards third_time (message 5) (5 ∷ []) k 0)).0
          ≡ err x
        → is_value x canceled ≡ true
        → invoke_listener seq_map_codec zstd two_shards third_time (message 5) 0
          ≡ (err x, called seq_map_codec zstd two_shards third_time (message 5) (5 ∷ []) (suc k) 0))
unfolding decoded
invoke_listener_retries_example =
    invoke_listener_retries seq_map_codec zstd two_shards third_time (message 5) (5 ∷ []) 0 refl
      (λ i. refl)

abbrev files : NatsSnapshot World
files = record { save_snapshot = λ w. (ok tt, w); restore_snapshot = λ w. (ok tt, (9 ∷ []) ∷ w) }

restore_snapshot_if_Missed_example :
    let run = restore_snapshot two_shards (some files) (λ js name w. ok 8) seen_three [] in
    (Missed two_shards (λ js name w. 8) seen_three files [] two_shards.stream_map
      → run ≡ (ok tt, (9 ∷ []) ∷ []))
    × ((run ≡ (ok tt, (9 ∷ []) ∷ []))
        ⊎ ((run ≡ (ok tt, []))
            × CaughtUp two_shards (λ js name w. 8) seen_three files [] two_shards.stream_map))
restore_snapshot_if_Missed_example =
    restore_snapshot_if_Missed two_shards (λ js name w. 8) seen_three files []

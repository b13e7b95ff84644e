-- ===== src/LogStream/Streams.antt =====
-- The streams of logstream/replicator.go: their configuration, and the loop of `NewReplicator` that finds
-- or creates one for each shard.
pub mod Config
pub mod Ready
use Prim.Native.Nat.{◌/◌}
use text.Mathlib.Text.{◌==◌ as str_eq}
use marmot.Base.{
  ℕ, zero, suc, ◌+◌, String, Bool, true, false, ◌&&◌, not, List, [], ◌∷◌, nat_beq, if◌then◌else◌,
  length, nat_key,
}
use marmot.Base.Maps.{Map, insert}
use marmot.Base.Int.{ℤ, pos, negsuc, ltz, int_beq, to_i64}
use marmot.Base.Errors.{Result, ok, err, panic, is_value, stream_not_found}
use marmot.Cfg.{Configuration}
use marmot.LogStream.Names.{stream_name, subject_name}

pub data DiscardPolicy : Type 0 where
  discard_old discard_new : DiscardPolicy

pub data StorageType : Type 0 where
  file_storage memory_storage : StorageType

pub data RetentionPolicy : Type 0 where
  limits_policy interest_policy work_queue_policy : RetentionPolicy

-- The fields of `nats.StreamConfig` that the program sets or compares.
pub record StreamConfig : Type 0 where
  pub name : String
  pub subjects : List String
  pub discard : DiscardPolicy
  pub max_msgs : ℤ
  pub storage : StorageType
  pub retention : RetentionPolicy
  pub allow_direct : Bool
  pub max_consumers : ℤ
  pub max_msgs_per_subject : ℤ
  pub duplicates : ℕ
  pub deny_delete : Bool
  pub replicas : ℤ

-- `int(totalShards>>1) + 1` wraps around.
unfoldable pub replicas_for : Configuration → ℕ → ℤ
replicas_for config total_shards =
    let configured = config.replication_log.replicas in
    let replicas = if ltz configured (pos 1) then to_i64 (total_shards / 2 + 1) else configured in
    if ltz (pos 5) replicas then pos 5 else replicas

unfoldable pub make_shard_stream_config : Configuration → ℕ → ℕ → Bool → StreamConfig
unfolding replicas_for
make_shard_stream_config config shard total_shards compressed = record {
  name = stream_name config shard compressed;
  subjects = subject_name config shard ∷ [];
  discard = discard_old;
  max_msgs = config.replication_log.max_entries;
  storage = file_storage;
  retention = limits_policy;
  allow_direct = true;
  max_consumers = negsuc 0;
  max_msgs_per_subject = negsuc 0;
  duplicates = 0;
  deny_delete = true;
  replicas = replicas_for config total_shards;
}

abbrev discard_beq : DiscardPolicy → DiscardPolicy → Bool
discard_beq discard_old discard_old = true
discard_beq discard_new discard_new = true
discard_beq _ _ = false

abbrev storage_beq : StorageType → StorageType → Bool
storage_beq file_storage file_storage = true
storage_beq memory_storage memory_storage = true
storage_beq _ _ = false

abbrev retention_beq : RetentionPolicy → RetentionPolicy → Bool
retention_beq limits_policy limits_policy = true
retention_beq interest_policy interest_policy = true
retention_beq work_queue_policy work_queue_policy = true
retention_beq _ _ = false

abbrev bool_beq : Bool → Bool → Bool
bool_beq true b = b
bool_beq false b = not b

-- `len(a) == 1 && len(b) == 1 && a[0] == b[0]`
abbrev same_subject : List String → List String → Bool
same_subject (a ∷ []) (b ∷ []) = str_eq a b
same_subject _ _ = false

unfoldable pub eq_shard_stream_config : StreamConfig → StreamConfig → Bool
eq_shard_stream_config a b =
    str_eq a.name b.name
    && same_subject a.subjects b.subjects
    && discard_beq a.discard b.discard
    && int_beq a.max_msgs b.max_msgs
    && storage_beq a.storage b.storage
    && retention_beq a.retention b.retention
    && bool_beq a.allow_direct b.allow_direct
    && int_beq a.max_consumers b.max_consumers
    && int_beq a.max_msgs_per_subject b.max_msgs_per_subject
    && nat_beq a.duplicates b.duplicates
    && bool_beq a.deny_delete b.deny_delete
    && int_beq a.replicas b.replicas

-- What the client does: a context, and the calls that look up, add and update a stream.
pub record StreamClient (J W : Type 0) : Type 0 where
  pub jet_stream : W → Result J
  pub stream_info : J → String → W → Result StreamConfig
  pub add_stream : J → StreamConfig → W → Result StreamConfig × W
  pub update_stream : J → StreamConfig → W → Result StreamConfig × W

abbrev and_then : {A B W : Type 0} → (A → W → Result B × W) → Result A × W → Result B × W
and_then f (ok a, w) = f a w
and_then f (err e, w) = (err e, w)
and_then f (panic m, w) = (panic m, w)

module _ {J W : Type 0} (client : StreamClient J W) (config : Configuration) where
  abbrev config_of : ℕ → StreamConfig
  config_of shard =
      make_shard_stream_config config shard config.replication_log.shards
        config.replication_log.compress

  -- An existing stream is brought up to date if the configuration says so.
  update_existing : ℕ → J → StreamConfig → W → Result (Unit {0}) × W
  update_existing shard js info w =
      if config.replication_log.update_existing
        && not (eq_shard_stream_config info (config_of shard))
      then (let (r, w') = client.update_stream js (config_of shard) w in
          elim r [ ok _ ↦ (ok tt, w') | err e ↦ (err e, w') | panic m ↦ (panic m, w') ])
      else (ok tt, w)

  after_add : ℕ → J → Result StreamConfig × W → Result (Unit {0}) × W
  unfolding update_existing
  after_add shard js (ok info, w) = update_existing shard js info w
  after_add shard js (err e, w) = (err e, w)
  after_add shard js (panic m, w) = (panic m, w)

  after_info : ℕ → J → Result StreamConfig → W → Result (Unit {0}) × W
  unfolding after_add
  after_info shard js (ok info) w = update_existing shard js info w
  after_info shard js (err e) w =
      if is_value e stream_not_found
      then after_add shard js (client.add_stream js (config_of shard) w)
      else (err e, w)
  after_info shard js (panic m) w = (panic m, w)

  -- One round of the loop, which yields the shard's context.
  ensure_stream : ℕ → W → Result J × W
  unfolding after_info
  ensure_stream shard w = elim (client.jet_stream w) [
    | err e ↦ (err e, w)
    | panic m ↦ (panic m, w)
    | ok js ↦
        let name = stream_name config shard config.replication_log.compress in
        let (r, w') = after_info shard js (client.stream_info js name w) w in
        elim r [ ok _ ↦ (ok js, w') | err e ↦ (err e, w') | panic m ↦ (panic m, w') ]
  ]

  -- The rounds that are left, the last shard that is done, and the map so far.
  ensure_streams : ℕ → ℕ → Map ℕ J → W → Result (Map ℕ J) × W
  unfolding ensure_stream
  ensure_streams zero done stream_map w = (ok stream_map, w)
  ensure_streams (suc n) done stream_map w =
      and_then (λ js w'. ensure_streams n (done + 1) (insert (done + 1) js stream_map) w')
        (ensure_stream (done + 1) w)

  -- The loop of `NewReplicator` over all shards.
  unfoldable pub stream_map_of : W → Result (Map ℕ J) × W
  unfolding ensure_streams
  stream_map_of w = ensure_streams config.replication_log.shards 0 [] w

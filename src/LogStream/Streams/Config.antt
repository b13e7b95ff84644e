-- ===== src/LogStream/Streams/Config.antt =====
-- The configuration of the streams of logstream/replicator.go.
use marmot.Base.{
  ℕ, ◌+◌, ◌-◌, ◌/◌, ◌^◌, ◌<◌, ◌≡◌, ◌↔◌, refl, sym, ◌∙◌, arith, Bool, true, false, ◌&&◌, List, [],
  ◌∷◌, nat_beq_iff, eq_iff, String,
}
use marmot.Base.Int.{ℤ, pos, negsuc, ltz, int_beq, to_i64}
use marmot.Cfg.{Configuration}
use marmot.LogStream.Streams.{
  DiscardPolicy, StorageType, RetentionPolicy, StreamConfig, replicas_for, make_shard_stream_config,
  eq_shard_stream_config, discard_beq, storage_beq, retention_beq, bool_beq, same_subject,
}

-- For fewer than 2^64 - 2 shards: the replicas of a shard's stream are between 1 and 5, whatever is
-- configured, and they are the configured number where that is between 1 and 5.
pub replicas_bounds :
    (config : Configuration) (shard shards : ℕ) (compressed : Bool)
    → shards < 2 ^ 64 - 2
    → let replicas = (make_shard_stream_config config shard shards compressed).replicas in
      (ltz replicas (pos 1) ≡ false)
      × (ltz (pos 5) replicas ≡ false)
      × (ltz config.replication_log.replicas (pos 1) ≡ false
          → ltz (pos 5) config.replication_log.replicas ≡ false
          → replicas ≡ config.replication_log.replicas)
unfolding make_shard_stream_config replicas_for
replicas_bounds config shard shards compressed few =
    let small : to_i64 (shards / 2 + 1) ≡ pos (shards / 2 + 1) = ground arith in
    (ground (arith, small), ground (arith, small), λ lo hi. ground arith)

int_beq_iff : (a b : ℤ) → (int_beq a b ≡ true) ↔ (a ≡ b)
int_beq_iff (pos a) (pos b) = ground arith
int_beq_iff (pos a) (negsuc b) = ground arith
int_beq_iff (negsuc a) (pos b) = ground arith
int_beq_iff (negsuc a) (negsuc b) = ground arith

discard_beq_iff : (a b : DiscardPolicy) → (discard_beq a b ≡ true) ↔ (a ≡ b)
discard_beq_iff a b = ground arith

storage_beq_iff : (a b : StorageType) → (storage_beq a b ≡ true) ↔ (a ≡ b)
storage_beq_iff a b = ground arith

retention_beq_iff : (a b : RetentionPolicy) → (retention_beq a b ≡ true) ↔ (a ≡ b)
retention_beq_iff a b = ground arith

bool_beq_iff : (a b : Bool) → (bool_beq a b ≡ true) ↔ (a ≡ b)
bool_beq_iff a b = ground arith

same_subject_iff : (a : List String) (b : String) → (same_subject a (b ∷ []) ≡ true) ↔ (a ≡ b ∷ [])
same_subject_iff [] b = ground arith
same_subject_iff (a ∷ []) b = ground (arith, eq_iff a b)
same_subject_iff (a ∷ c ∷ rest) b = ground arith

both : (a b : Bool) → (a && b) ≡ true → (a ≡ true) × (b ≡ true)
both a b h = ground arith

fields_equal :
    (a b : StreamConfig) (subject : String)
    → b.subjects ≡ subject ∷ []
    → eq_shard_stream_config a b ≡ true
    → a ≡ b
unfolding eq_shard_stream_config
fields_equal a b subject single h =
    let (t₁₁, h₁₂) = both _ _ h in
    let (t₁₀, h₁₁) = both _ _ t₁₁ in
    let (t₉, h₁₀) = both _ _ t₁₀ in
    let (t₈, h₉) = both _ _ t₉ in
    let (t₇, h₈) = both _ _ t₈ in
    let (t₆, h₇) = both _ _ t₇ in
    let (t₅, h₆) = both _ _ t₆ in
    let (t₄, h₅) = both _ _ t₅ in
    let (t₃, h₄) = both _ _ t₄ in
    let (t₂, h₃) = both _ _ t₃ in
    let (h₁, h₂) = both _ (same_subject a.subjects b.subjects) t₂ in
    λ i. record {
      name = (eq_iff a.name b.name).0 h₁ i;
      subjects = ((same_subject_iff a.subjects subject).0 (rw single at (h₂)) ∙ sym single) i;
      discard = (discard_beq_iff a.discard b.discard).0 h₃ i;
      max_msgs = (int_beq_iff a.max_msgs b.max_msgs).0 h₄ i;
      storage = (storage_beq_iff a.storage b.storage).0 h₅ i;
      retention = (retention_beq_iff a.retention b.retention).0 h₆ i;
      allow_direct = (bool_beq_iff a.allow_direct b.allow_direct).0 h₇ i;
      max_consumers = (int_beq_iff a.max_consumers b.max_consumers).0 h₈ i;
      max_msgs_per_subject = (int_beq_iff a.max_msgs_per_subject b.max_msgs_per_subject).0 h₉ i;
      duplicates = (nat_beq_iff a.duplicates b.duplicates).0 h₁₀ i;
      deny_delete = (bool_beq_iff a.deny_delete b.deny_delete).0 h₁₁ i;
      replicas = (int_beq_iff a.replicas b.replicas).0 h₁₂ i;
    }

passes_itself :
    (b : StreamConfig) (subject : String)
    → b.subjects ≡ subject ∷ []
    → eq_shard_stream_config b b ≡ true
unfolding eq_shard_stream_config
passes_itself b subject single =
    rw
      (
        (eq_iff b.name b.name).1 refl,
        single,
        (eq_iff subject subject).1 refl,
        (discard_beq_iff b.discard b.discard).1 refl,
        (int_beq_iff b.max_msgs b.max_msgs).1 refl,
        (storage_beq_iff b.storage b.storage).1 refl,
        (retention_beq_iff b.retention b.retention).1 refl,
        (bool_beq_iff b.allow_direct b.allow_direct).1 refl,
        (int_beq_iff b.max_consumers b.max_consumers).1 refl,
        (int_beq_iff b.max_msgs_per_subject b.max_msgs_per_subject).1 refl,
        (nat_beq_iff b.duplicates b.duplicates).1 refl,
        (bool_beq_iff b.deny_delete b.deny_delete).1 refl,
        (int_beq_iff b.replicas b.replicas).1 refl,
      )
      refl

eq_single_subject_iff :
    (a b : StreamConfig) (subject : String)
    → b.subjects ≡ subject ∷ []
    → (eq_shard_stream_config a b ≡ true) ↔ (a ≡ b)
eq_single_subject_iff a b subject single =
    (fields_equal a b subject single, λ e. rw e (passes_itself b subject single))

-- A stream's configuration passes for that of the shard exactly if it is the shard's in all the
-- fields that the program sets.
pub eq_shard_stream_config_iff :
    (a : StreamConfig) (config : Configuration) (shard shards : ℕ) (compressed : Bool)
    → (eq_shard_stream_config a (make_shard_stream_config config shard shards compressed) ≡ true)
      ↔ (a ≡ make_shard_stream_config config shard shards compressed)
unfolding make_shard_stream_config
eq_shard_stream_config_iff a config shard shards compressed =
    eq_single_subject_iff a (make_shard_stream_config config shard shards compressed) _ refl

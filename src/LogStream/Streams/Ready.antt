-- ===== src/LogStream/Streams/Ready.antt =====
-- What `NewReplicator` of logstream/replicator.go leaves for `Publish`.
use marmot.Base.{
  ℕ, zero, suc, ◌+◌, ◌≤◌, ◌<◌, ◌≡◌, ◌≢◌, refl, arith, none, [], nat_key, inl, inr, ◌⊎◌, String,
  Bool-cases, nat_beq,
}
use marmot.Base.Maps.{Map, lookup, insert, lookup-insert}
use marmot.Base.Errors.{Error, Result, ok, err, panic}
use marmot.Cfg.{Configuration}
use marmot.LogStream.Publish.Shard.{IsSharded}
use marmot.LogStream.Streams.{StreamClient, ensure_stream, ensure_streams, stream_map_of}

run-cases :
    {A W : Type 0} (run : Result A × W)
    → ((a : A) × (w : W) × (run ≡ (ok a, w)))
      ⊎ ((e : Error) × (w : W) × (run ≡ (err e, w)))
      ⊎ ((m : String) × (w : W) × (run ≡ (panic m, w)))
run-cases (ok a, w) = inl (a, w, refl)
run-cases (err e, w) = inr (inl (e, w, refl))
run-cases (panic m, w) = inr (inr (m, w, refl))

insert_covers :
    {J : Type 0} (done : ℕ) (js : J) (m : Map ℕ J)
    → ((shard : ℕ) → 0 < shard → shard ≤ done → lookup shard m ≢ none)
    → (shard : ℕ) → 0 < shard
    → shard ≤ done + 1
    → lookup shard (insert (done + 1) js m) ≢ none
insert_covers done js m so_far shard lo hi h = elim (Bool-cases (nat_beq (done + 1) shard)) [
  | inl e ↦ absurd (ground (arith, lookup-insert (done + 1) shard js m))
  | inr e ↦ so_far shard lo (ground arith) (ground (arith, lookup-insert (done + 1) shard js m))
]

module _ {J W : Type 0} (client : StreamClient J W) (config : Configuration) where
  ensure_streams-covers :
      (n done : ℕ) (m m' : Map ℕ J) (w w' : W)
      → ((shard : ℕ) → 0 < shard → shard ≤ done → lookup shard m ≢ none)
      → ensure_streams client config n done m w ≡ (ok m', w')
      → (shard : ℕ) → 0 < shard
      → shard ≤ done + n
      → lookup shard m' ≢ none
  unfolding ensure_streams
  ensure_streams-covers zero done m m' w w' so_far h shard lo hi =
      let same : m ≡ m' = ground arith in rw (← same) (so_far shard lo (omega arith))
  ensure_streams-covers (suc n) done m m' w w' so_far h shard lo hi =
      elim (run-cases (ensure_stream client config (done + 1) w)) [
        | inl (js, w₁, e) ↦
            ensure_streams-covers n (done + 1) (insert (done + 1) js m) m' w₁ w'
              (insert_covers done js m so_far) (rw e at (h)) shard lo (omega arith)
        | inr (inl (x, w₁, e)) ↦ let stuck = rw e at (h) in absurd (ground arith)
        | inr (inr (x, w₁, e)) ↦ let stuck = rw e at (h) in absurd (ground arith)
      ]

  -- With at least one shard, a replicator whose streams were found or made has one for each shard,
  -- as Publish needs.
  pub stream_map_of-IsSharded :
      (w w' : W) (m : Map ℕ J)
      → 0 < config.replication_log.shards
      → stream_map_of client config w ≡ (ok m, w')
      → IsSharded (record {
        config = config;
        shards = config.replication_log.shards;
        compression_enabled = config.replication_log.compress;
        stream_map = m;
      })
  unfolding stream_map_of
  stream_map_of-IsSharded w w' m some_shard h = record {
    some_shard = some_shard;
    stream_of = λ shard lo hi.
        ensure_streams-covers config.replication_log.shards 0 [] m w w'
          (λ shard lo hi. absurd (omega arith)) h shard lo (omega arith);
  }

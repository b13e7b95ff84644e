-- ===== src/LogStream/Lease.antt =====
-- logstream/replicator_meta_store.go: the lease that a node takes before it saves a snapshot. The
-- key-value store of the client is a parameter. A lease is acquired in two parts, since other nodes act
-- between the `Get` and the write.
pub mod Laws
pub mod Exclusive
use marmot.Base.{
  ℕ, ◌+◌, ◌≡◌, String, Bool, true, false, ◌&&◌, not, List, [], ◌∷◌, nat_beq, ltb, if◌then◌else◌,
}
use marmot.Base.Errors.{Error, Result, ok, err, panic, is_value, key_not_found}
use marmot.LogStream.Replicator.{Bytes}

-- `replicatorLockInfo`, the time in milliseconds.
pub record LockInfo : Type 0 where
  pub node_id : ℕ
  pub timestamp : ℕ

-- CBOR, as `Serialize` and `DeserializeFrom` call it.
pub record LockCodec : Type 0 where
  pub serialize : LockInfo → Result Bytes
  pub deserialize_from : Bytes → Result LockInfo
  pub deserialize-serialize :
      (info : LockInfo) (bytes : Bytes)
      → serialize info ≡ ok bytes
      → deserialize_from bytes ≡ ok info

pub record Entry : Type 0 where
  pub value : Bytes
  pub revision : ℕ

-- `nats.KeyValue`, over the world `W` behind it.
pub record KeyValue (W : Type 0) : Type 0 where
  pub get : String → W → Result Entry
  pub create : String → Bytes → W → Result ℕ × W
  pub update : String → Bytes → ℕ → W → Result ℕ × W

-- What is left to do once the entry is read.
pub data Attempt : Type 0 where
  over : Result Bool → Attempt
  creating : Bytes → Attempt
  updating : Bytes → ℕ → Attempt

module _ {W : Type 0} (codec : LockCodec) (kv : KeyValue W) (name : String) (duration : ℕ) where
  -- Another node's lease that has not run out is respected.
  held_by_other : ℕ → ℕ → LockInfo → Bool
  held_by_other node now info =
      not (nat_beq info.node_id node) && ltb now (info.timestamp + duration)

  after_read : ℕ → ℕ → Bytes → ℕ → Result LockInfo → Attempt
  unfolding held_by_other
  after_read node now payload rev (err e) = over (err e)
  after_read node now payload rev (panic m) = over (panic m)
  after_read node now payload rev (ok info) =
      if held_by_other node now info then over (ok false) else updating payload rev

  after_get : ℕ → ℕ → Bytes → Result Entry → Attempt
  unfolding after_read
  after_get node now payload (err e) =
      if is_value e key_not_found then creating payload else over (err e)
  after_get node now payload (panic m) = over (panic m)
  after_get node now payload (ok entry) =
      after_read node now payload entry.revision (codec.deserialize_from entry.value)

  -- `AcquireLease` of a node up to the write.
  pub inspect : ℕ → ℕ → W → Attempt
  unfolding after_get
  inspect node now w = elim (codec.serialize (record { node_id = node; timestamp = now })) [
    | err e ↦ over (err e)
    | panic m ↦ over (panic m)
    | ok payload ↦ after_get node now payload (kv.get name w)
  ]

  created : Result ℕ × W → Result Bool × W
  created (ok rev, w) = if nat_beq rev 0 then (panic "nil entry", w) else (ok true, w)
  created (err e, w) = (err e, w)
  created (panic m, w) = (panic m, w)

  updated : Result ℕ × W → Result Bool × W
  updated (ok rev, w) = (ok true, w)
  updated (err e, w) = (err e, w)
  updated (panic m, w) = (panic m, w)

  -- The rest of `AcquireLease`.
  pub finish : Attempt → W → Result Bool × W
  unfolding created updated
  finish (over r) w = (r, w)
  finish (creating payload) w = created (kv.create name payload w)
  finish (updating payload rev) w = updated (kv.update name payload rev w)

  -- `AcquireLease` with nobody in between.
  pub acquire_lease : ℕ → ℕ → W → Result Bool × W
  unfolding inspect finish
  acquire_lease node now w = finish (inspect node now w) w

  -- The goroutine of `ContextRefreshingLease`: a round has its time, and whether the context is done when
  -- it waits. A round that does not get the lease does not wait.
  refreshing : ℕ → List (ℕ × Bool) → W → W
  unfolding acquire_lease
  refreshing node [] w = w
  refreshing node ((now, done) ∷ rounds) w =
      let (r, w') = acquire_lease node now w in
      let rest = refreshing node rounds w' in
      elim r [ err e ↦ w' | panic m ↦ w' | ok locked ↦ if locked && done then w' else rest ]

  pub context_refreshing_lease : ℕ → ℕ → List (ℕ × Bool) → W → Result Bool × W
  unfolding refreshing
  context_refreshing_lease node now rounds w =
      let (r, w') = acquire_lease node now w in
      elim r [
        | err e ↦ (err e, w')
        | panic m ↦ (panic m, w')
        | ok locked ↦ (ok locked, if locked then refreshing node rounds w' else w')
      ]

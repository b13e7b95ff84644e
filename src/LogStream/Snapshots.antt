-- ===== src/LogStream/Snapshots.antt =====
-- `RestoreSnapshot`, `SaveSnapshot` and `ForceSaveSnapshot` of logstream/replicator.go, over a snapshot
-- that may be nil. A Go map is ranged over in any order: here it is the order of the list.
pub mod Behind
use marmot.Base.{
  ℕ, String, Bool, true, false, Option, none, some, List, [], ◌∷◌, ltb, if◌then◌else◌, nat_key,
}
use marmot.Base.Maps.{Map}
use marmot.Base.Errors.{Error, Result, ok, err, panic}
use marmot.LogStream.State.{ReplicationState, get}
use marmot.LogStream.Names.{stream_name}
use marmot.LogStream.Replicator.{Replicator}

-- `snapshot.NatsSnapshot`
pub record NatsSnapshot (W : Type 0) : Type 0 where
  pub save_snapshot : W → Result (Unit {0}) × W
  pub restore_snapshot : W → Result (Unit {0}) × W

-- The time of the last snapshot, and the world behind it.
pub record Saving (W : Type 0) : Type 0 where
  pub last_snapshot : Option ℕ
  pub world : W

module _ {J W : Type 0} (r : Replicator J) (snapshot : Option (NatsSnapshot W)) where
  -- The first sequence number that a stream still has, `StreamInfo(…).State.FirstSeq`.
  behind : (J → String → W → Result ℕ) → ReplicationState → W → ℕ → J → Result Bool
  behind first_seq rep_state w shard js =
      let name = stream_name r.config shard r.compression_enabled in
      elim (first_seq js name w) [
        | err e ↦ err e
        | panic m ↦ panic m
        | ok first ↦ ok (ltb (get rep_state name) first)
      ]

  restore_if_behind :
      (J → String → W → Result ℕ)
      → NatsSnapshot W
      → ReplicationState
      → Map ℕ J
      → W
      → Result (Unit {0}) × W
  unfolding behind
  restore_if_behind first_seq s rep_state [] w = (ok tt, w)
  restore_if_behind first_seq s rep_state ((shard, js) ∷ streams) w =
      let rest = restore_if_behind first_seq s rep_state streams w in
      elim (behind first_seq rep_state w shard js) [
        | err e ↦ (err e, w)
        | panic m ↦ (panic m, w)
        | ok is_behind ↦ if is_behind then s.restore_snapshot w else rest
      ]

  unfoldable pub restore_snapshot :
      (J → String → W → Result ℕ) → ReplicationState → W → Result (Unit {0}) × W
  unfolding restore_if_behind
  restore_snapshot first_seq rep_state w = elim snapshot [
    | none ↦ (ok tt, w)
    | some s ↦ restore_if_behind first_seq s rep_state r.stream_map w
  ]

  unfoldable pub force_save_snapshot : ℕ → Saving W → Saving W
  force_save_snapshot now st = elim snapshot [
    | none ↦ st
    | some s ↦
        let (result, w) = s.save_snapshot st.world in
        elim result [
          | ok _ ↦ record { last_snapshot = some now; world = w }
          | err e ↦ record st { world = w }
          | panic m ↦ record st { world = w }
        ]
  ]

  -- `lease` is the result of `ContextRefreshingLease`.
  unfoldable pub save_snapshot : Result Bool → ℕ → Saving W → Saving W
  unfolding force_save_snapshot
  save_snapshot (err e) now st = st
  save_snapshot (panic m) now st = st
  save_snapshot (ok locked) now st = if locked then force_save_snapshot now st else st

-- ===== src/LogStream/Snapshots/Behind.antt =====
-- When `RestoreSnapshot` of logstream/replicator.go restores.
use marmot.Base.{
  ℕ, String, ◌≡◌, refl, ◌⊎◌, inl, inr, arith, Bool-cases, ◌<◌, ◌≤◌, true, some, [], ◌∷◌, ltb,
}
use marmot.Base.Maps.{Map}
use marmot.Base.Errors.{Result, ok}
use marmot.LogStream.State.{ReplicationState, get}
use marmot.LogStream.Names.{stream_name}
use marmot.LogStream.Replicator.{Replicator}
use marmot.LogStream.Snapshots.{NatsSnapshot, behind, restore_if_behind, restore_snapshot}

module _ {J W : Type 0} (r : Replicator J) (first_seq : J → String → W → ℕ)
    (rep_state : ReplicationState) (s : NatsSnapshot W) (w : W) where
  -- The number that the node has saved for a stream, and the first that the stream still has.
  abbrev saved : ℕ → ℕ
  saved shard = get rep_state (stream_name r.config shard r.compression_enabled)

  abbrev first : ℕ × J → ℕ
  first (shard, js) = first_seq js (stream_name r.config shard r.compression_enabled) w

  -- Some stream has dropped a message that the node has not seen.
  abbrev pub Missed : Map ℕ J → Type 0
  Missed [] = ⊥
  Missed ((shard, js) ∷ streams) =
      ((k : ℕ) × (saved shard < k) × (k < first (shard, js))) ⊎ Missed streams

  -- Every message that a stream has dropped, the node has seen.
  abbrev pub CaughtUp : Map ℕ J → Type 0
  CaughtUp [] = Unit
  CaughtUp ((shard, js) ∷ streams) =
      ((k : ℕ) → k < first (shard, js) → k ≤ saved shard) × CaughtUp streams

  abbrev run : Map ℕ J → Result (Unit {0}) × W
  run streams =
      restore_if_behind r (some s) (λ js name w. ok (first_seq js name w)) s rep_state streams w

  restore_if_behind-Missed :
      (streams : Map ℕ J) → Missed streams → run streams ≡ s.restore_snapshot w
  unfolding restore_if_behind behind
  restore_if_behind-Missed [] h = absurd h
  restore_if_behind-Missed ((shard, js) ∷ streams) (inl (k, above, below)) =
      let more : ltb (saved shard) (first (shard, js)) ≡ true = ground arith in ground (arith, more)
  restore_if_behind-Missed ((shard, js) ∷ streams) (inr h) =
      ground (arith, restore_if_behind-Missed streams h)

  restore_if_behind-CaughtUp :
      (streams : Map ℕ J)
      → (run streams ≡ s.restore_snapshot w) ⊎ ((run streams ≡ (ok tt, w)) × CaughtUp streams)
  unfolding restore_if_behind behind
  restore_if_behind-CaughtUp [] = inr (refl, tt)
  restore_if_behind-CaughtUp ((shard, js) ∷ streams) =
      elim (Bool-cases (ltb (saved shard) (first (shard, js)))) [
        | inl e ↦ inl (ground (arith, e))
        | inr e ↦ elim (restore_if_behind-CaughtUp streams) [
          | inl h ↦ inl (ground (arith, e, h))
          | inr (h, seen) ↦ inr (ground (arith, e, h), ((λ k below. ground (arith, e)), seen))
        ]
      ]

  -- While the client tells the state of every stream: if some stream has dropped a message above
  -- the saved number, RestoreSnapshot is the restore of the snapshot; and in any case it is that
  -- restore, or it returns no error and changes nothing, and then no stream has dropped a message
  -- above the saved number.
  pub restore_snapshot_if_Missed :
      let run = restore_snapshot r (some s) (λ js name w. ok (first_seq js name w)) rep_state w in
      (Missed r.stream_map → run ≡ s.restore_snapshot w)
      × ((run ≡ s.restore_snapshot w) ⊎ ((run ≡ (ok tt, w)) × CaughtUp r.stream_map))
  unfolding restore_snapshot
  restore_snapshot_if_Missed =
      (restore_if_behind-Missed r.stream_map, restore_if_behind-CaughtUp r.stream_map)

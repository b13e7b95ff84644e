-- ===== src/MainLoop/Spacing.antt =====
-- How far apart the loop of marmot.go saves snapshots.
use marmot.Base.{
  ℕ, ◌+◌, ◌≤◌, ◌≡◌, ◌∙◌, arith, Bool, true, false, ◌&&◌, ◌⊎◌, inl, inr, Bool-cases, Option, none,
  some, List, [], ◌∷◌, All, All-map, Pairwise, nat_beq, nat_beq_iff, leb→le, if◌then◌else◌,
}
use marmot.Cfg.{Configuration}
use marmot.MainLoop.{
  Event, listener, cleanup, snapshot, sleep, Program, running, panicked, exited, is_due,
  snapshots_on, on_event, on_cleanup, on_snapshot,
}

module _ {S : Type 0} (c : Configuration) (p : Program S) where
  -- The time of the last snapshot is left by a cleanup, and by a save unless it succeeds at that time.
  pub record IsTimed : Type 0 where
    pub cleanup_keeps :
        (t : ℕ) (s : S)
        → p.last_save_snapshot_time (p.cleanup_change_logs t s).1 ≡ p.last_save_snapshot_time s
    pub save_sets :
        (now : ℕ) (s : S)
        → (p.last_save_snapshot_time (p.save_snapshot now s) ≡ some now)
          ⊎ (p.last_save_snapshot_time (p.save_snapshot now s) ≡ p.last_save_snapshot_time s)

  abbrev is_at : Option ℕ → ℕ → Bool
  is_at none now = false
  is_at (some t) now = nat_beq t now

  -- The loop calls for a snapshot, and it succeeds.
  abbrev pub has_saved : ℕ → S → Bool
  has_saved now s =
      c.snapshot.enable
      && c.publish
      && is_due (p.last_save_snapshot_time s) c.snapshot.interval now
      && is_at (p.last_save_snapshot_time (p.save_snapshot now s)) now

  abbrev pub noted : Event → S → List ℕ → List ℕ
  noted (snapshot now) s times = if has_saved now s then now ∷ times else times
  noted _ s times = times

  -- The times at which the loop has saved a snapshot, while it runs.
  pub saved_times : List Event → S → List ℕ
  saved_times [] s = []
  saved_times (e ∷ events) s = elim (on_event c p e s) [
    | running s' ↦ noted e s (saved_times events s')
    | panicked x s' ↦ []
    | exited s' ↦ []
  ]

  abbrev Late : ℕ → List ℕ → Type 0
  Late last = All (λ t. last + c.snapshot.interval ≤ t)

  after_snapshot :
      IsTimed
      → (now : ℕ) (s : S)
      → ((has_saved now s ≡ true)
          × (p.last_save_snapshot_time (on_snapshot c p now s) ≡ some now)
          × (is_due (p.last_save_snapshot_time s) c.snapshot.interval now ≡ true))
        ⊎ ((has_saved now s ≡ false)
            × (p.last_save_snapshot_time (on_snapshot c p now s) ≡ p.last_save_snapshot_time s))
  unfolding on_snapshot snapshots_on
  after_snapshot timed now s = elim (Bool-cases (has_saved now s)) [
    | inl e ↦ inl (e, ground (arith, e, nat_beq_iff now now), ground (arith, e))
    | inr e ↦ inr (e, ground (arith, e, timed.save_sets now s, nat_beq_iff now now))
  ]

  saved_times-Late :
      IsTimed
      → (events : List Event) (s : S) (last : ℕ) → p.last_save_snapshot_time s ≡ some last
      → Late last (saved_times events s)
  unfolding saved_times on_event on_cleanup
  saved_times-Late timed [] s last e = tt
  saved_times-Late timed (listener none ∷ events) s last e = saved_times-Late timed events s last e
  saved_times-Late timed (listener (some x) ∷ events) s last e = tt
  saved_times-Late timed (sleep now ∷ events) s last e = tt
  saved_times-Late timed (cleanup t ∷ events) s last e =
      saved_times-Late timed events _ last (timed.cleanup_keeps _ s ∙ e)
  saved_times-Late timed (snapshot now ∷ events) s last e = elim (after_snapshot timed now s) [
    | inl (saved, set, due) ↦
        let bound : last + c.snapshot.interval ≤ now =
          leb→le (last + c.snapshot.interval) now (rw e at (due)) in
        rw saved (
          bound,
          All-map (λ t. now + c.snapshot.interval ≤ t) (λ t. last + c.snapshot.interval ≤ t)
              (saved_times events (on_snapshot c p now s)) (λ t h. omega (arith, bound, h))
              (saved_times-Late timed events (on_snapshot c p now s) now set),
        )
    | inr (missed, kept) ↦ rw missed (saved_times-Late timed events _ last (kept ∙ e))
  ]

  -- Two times at which a snapshot is saved are at least the interval apart.
  pub saved_times-apart :
      IsTimed
      → (events : List Event) (s : S)
      → Pairwise (λ a b. a + c.snapshot.interval ≤ b) (saved_times events s)
  unfolding saved_times on_event
  saved_times-apart timed [] s = tt
  saved_times-apart timed (listener none ∷ events) s = saved_times-apart timed events s
  saved_times-apart timed (listener (some x) ∷ events) s = tt
  saved_times-apart timed (sleep now ∷ events) s = tt
  saved_times-apart timed (cleanup t ∷ events) s = saved_times-apart timed events _
  saved_times-apart timed (snapshot now ∷ events) s = elim (after_snapshot timed now s) [
    | inl (saved, set, due) ↦
        rw saved (saved_times-Late timed events _ now set, saved_times-apart timed events _)
    | inr (missed, kept) ↦ rw missed (saved_times-apart timed events _)
  ]

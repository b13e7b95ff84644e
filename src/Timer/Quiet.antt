-- ===== src/Timer/Quiet.antt =====
-- When the timer of utils/timeout.go fires.
use marmot.Base.{
  ℕ, ◌+◌, ◌≡◌, refl, ap, Bool-cases, inl, inr, true, false, none, some, List, [], ◌∷◌, nat_beq, leb,
  if◌then◌else◌,
}
use marmot.Timer.{new_timeout_publisher, reset, fires, is_due, auto_reset}

-- The time of the last event, or the start.
abbrev pub last_event : ℕ → List ℕ → ℕ
last_event start [] = start
last_event start (now ∷ events) = last_event now events

auto_reset-last :
    (start duration : ℕ) (events : List ℕ)
    → auto_reset events
        (record { duration = duration; has_ticker = true; next = some (start + duration) })
      ≡ record {
        duration = duration;
        has_ticker = true;
        next = some (last_event start events + duration);
      }
unfolding auto_reset reset
auto_reset-last start duration [] = refl
auto_reset-last start duration (now ∷ events) = auto_reset-last now duration events

never-resets :
    (duration : ℕ) (events : List ℕ)
    → auto_reset events (record { duration = duration; has_ticker = false; next = none })
      ≡ record { duration = duration; has_ticker = false; next = none }
unfolding auto_reset reset
never-resets duration [] = refl
never-resets duration (now ∷ events) = never-resets duration events

-- The timer fires once nothing has happened for its duration, and never for a duration of zero.
fires-auto_reset :
    (start duration now : ℕ) (events : List ℕ)
    → fires now (auto_reset events (new_timeout_publisher start duration))
      ≡ (if nat_beq duration 0 then false else leb (last_event start events + duration) now)
unfolding fires is_due new_timeout_publisher
fires-auto_reset start duration now events = elim (Bool-cases (nat_beq duration 0)) [
  | inl e ↦ rw e (ap (fires now) (never-resets duration events))
  | inr e ↦ rw e (ap (fires now) (auto_reset-last start duration events))
]

-- ===== src/Telemetry/Silent.antt =====
-- telemetry/telemetry.go without Prometheus: the metrics are there, and nothing is kept of them.
use marmot.Base.{String, ◌≡◌, refl, none, List, [], ◌∷◌, false}
use marmot.Base.Errors.{ok}
use marmot.Cfg.{Configuration}
use marmot.Telemetry.{
  Prometheus, Telemetry, Stat, noop_stat, Call, new_counter, new_gauge, new_histogram, on_stat,
  initialize_telemetry,
}

module _ {R : Type 0} (client : Prometheus R) (c : Configuration) where
  abbrev off : Telemetry R
  off = record { registry = none; serving = none }

  abbrev calls_on : Stat → List Call → Telemetry R → Telemetry R
  calls_on s [] t = t
  calls_on s (x ∷ xs) t = calls_on s xs (on_stat client c s x t)

  calls_on_noop : (calls : List Call) (t : Telemetry R) → calls_on noop_stat calls t ≡ t
  unfolding on_stat
  calls_on_noop [] t = refl
  calls_on_noop (x ∷ xs) t = calls_on_noop xs t

  initialized :
      (t : Telemetry R) → c.prometheus.enable ≡ false → initialize_telemetry client c t ≡ t
  unfolding initialize_telemetry
  initialized t disabled = rw disabled refl

  -- Without Prometheus, each of the three metrics is made without an error, and no calls of it
  -- leave anything.
  silent :
      (name help : String) (calls : List Call)
      → c.prometheus.enable ≡ false
      → let t = initialize_telemetry client c off in
        (calls_on noop_stat calls t ≡ off)
        × (new_counter client c name help t ≡ (ok noop_stat, off))
        × (new_gauge client c name help t ≡ (ok noop_stat, off))
        × (new_histogram client c name help t ≡ (ok noop_stat, off))
  unfolding new_counter new_gauge new_histogram
  silent name help calls disabled =
      rw (initialized off disabled) (calls_on_noop calls off, refl, refl, refl)

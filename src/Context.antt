-- ===== src/Context.antt =====
-- utils/state_context.go: the context of the program. Its `select` may find both of its channels ready, and
-- then takes either; `expired` says that it takes the timer's.
use marmot.Base.{Bool, true, false, not, if◌then◌else◌}

pub record StateContext : Type 0 where
  pub canceled : Bool

abbrev pub new_state_context : StateContext
new_state_context = record { canceled = false }

unfoldable pub cancel : StateContext → StateContext
cancel s = record s { canceled = true }

unfoldable pub is_canceled : Bool → StateContext → Bool
is_canceled expired s = if s.canceled then not expired else false

-- ===== src/Timer.antt =====
-- utils/timeout.go: a timer that is put off by each reset, and the subscription that resets it. A time is
-- in milliseconds; `next` is when the ticker sends next, none where there is no ticker or it is stopped.
pub mod Quiet
use marmot.Base.{
  ℕ, ◌+◌, Bool, true, false, Option, none, some, List, [], ◌∷◌, nat_beq, leb, if◌then◌else◌,
}

pub record TimeoutPublisher : Type 0 where
  pub duration : ℕ
  pub has_ticker : Bool
  pub next : Option ℕ

-- A duration of zero makes a channel on which nothing is ever sent.
unfoldable pub new_timeout_publisher : ℕ → ℕ → TimeoutPublisher
new_timeout_publisher now duration =
    if nat_beq duration 0
    then record { duration = duration; has_ticker = false; next = none }
    else record { duration = duration; has_ticker = true; next = some (now + duration) }

unfoldable pub reset : ℕ → TimeoutPublisher → TimeoutPublisher
reset now t = if t.has_ticker then record t { next = some (now + t.duration) } else t

unfoldable pub stop : TimeoutPublisher → TimeoutPublisher
stop t = if t.has_ticker then record t { next = none } else t

is_due : ℕ → Option ℕ → Bool
is_due now none = false
is_due now (some next) = leb next now

-- Whether `Channel()` has a time to give.
unfoldable pub fires : ℕ → TimeoutPublisher → Bool
unfolding is_due
fires now t = is_due now t.next

-- `AutoResetEventTimer`: each event on the bus, by its time, resets the timer.
unfoldable pub auto_reset : List ℕ → TimeoutPublisher → TimeoutPublisher
unfolding reset
auto_reset [] t = t
auto_reset (now ∷ events) t = auto_reset events (reset now t)

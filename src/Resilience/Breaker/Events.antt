-- ===== src/Resilience/Breaker/Events.antt =====
-- resilience.go, `CircuitBreaker`: the calls of all goroutines as one sequence of events.
use lynx_apollo.Base.{ℕ, ◌≤◌, List, [], ◌∷◌, Option}
use lynx_apollo.Errors.{GoError}
use lynx_apollo.Resilience.Breaker.{
  CircuitBreaker, before_attempt, after_attempt, get_failure_rate, force_open, force_close,
}

-- The calls, each with the instants at which it reads the clock.
pub data BreakerEvent : Type 0 where
  attempt : ℕ → BreakerEvent
  outcome : ℕ → ℕ → Option GoError → BreakerEvent
  rate : ℕ → BreakerEvent
  forced_open : ℕ → BreakerEvent
  forced_closed : ℕ → BreakerEvent

unfoldable pub apply : BreakerEvent → CircuitBreaker → CircuitBreaker
apply (attempt now) cb = (before_attempt now cb).0
apply (outcome now later err) cb = after_attempt now later err cb
apply (rate now) cb = (get_failure_rate now cb).0
apply (forced_open now) cb = force_open now cb
apply (forced_closed now) cb = force_close cb

abbrev pub starts : BreakerEvent → ℕ
starts (attempt now) = now
starts (outcome now later err) = now
starts (rate now) = now
starts (forced_open now) = now
starts (forced_closed now) = now

abbrev pub ends : BreakerEvent → ℕ
ends (outcome now later err) = later
ends e = starts e

-- The clock does not run backwards, from `lo` on.
abbrev pub InOrder : ℕ → List BreakerEvent → Type 0
InOrder lo [] = Unit {0}
InOrder lo (e ∷ es) = (lo ≤ starts e) × (starts e ≤ ends e) × InOrder (ends e) es

unfoldable pub run : CircuitBreaker → List BreakerEvent → CircuitBreaker
run cb [] = cb
run cb (e ∷ es) = run (apply e cb) es

abbrev pub end_time : ℕ → List BreakerEvent → ℕ
end_time lo [] = lo
end_time lo (e ∷ es) = end_time (ends e) es

-- ===== src/Resilience/Breaker.antt =====
-- resilience.go, `CircuitBreaker`. Times are nanoseconds since Go's zero time, so that the zero
-- `lastFailure` is 0; each method takes the instants that it reads from the clock. The methods hold
-- the breaker's lock from end to end, so each is one step; `Do` is two steps with the operation between.
pub mod Window
pub mod Events
pub mod Invariant
pub mod History
pub mod Gate
pub mod Guard
use lynx_apollo.Base.{
  ℕ, ◌+◌, ◌-◌, ◌*◌, Bool, true, false, List, [], ◌∷◌, ◌++◌, Option, none, some, ltb, length,
  if◌then◌else◌, ◌&&◌, codes, Float, frac, pos, leb_float, ◌==◌, second,
}
use lynx_apollo.Errors.{GoError, plain}

abbrev pub circuit_window : ℕ
circuit_window = 60 * second

-- How long an open breaker rejects all attempts.
abbrev pub open_period : ℕ
open_period = 30 * second

-- `other n` is an integer that none of the constants names.
pub data CircuitState : Type 0 where
  closed opened half_open : CircuitState
  other : ℕ → CircuitState

pub record CircuitBreaker : Type 0 where
  pub threshold : Float
  pub failures : List ℕ
  pub successes : List ℕ
  pub last_failure : ℕ
  pub state : CircuitState

unfoldable pub new_circuit_breaker : Float → CircuitBreaker
new_circuit_breaker threshold = record {
  threshold = threshold;
  failures = [];
  successes = [];
  last_failure = 0;
  state = closed;
}

pub rejected_open : GoError
rejected_open = plain (codes "circuit breaker is open")

pub invalid_state : GoError
invalid_state = plain (codes "invalid circuit breaker state")

before_in : CircuitState → ℕ → CircuitBreaker → CircuitBreaker × Option GoError
before_in opened now cb =
    if ltb open_period (now - cb.last_failure)
    then (record cb { state = half_open }, none)
    else (cb, some rejected_open)
before_in half_open now cb = (cb, none)
before_in closed now cb = (cb, none)
before_in (other n) now cb = (cb, some invalid_state)

-- beforeAttempt
unfoldable pub before_attempt : ℕ → CircuitBreaker → CircuitBreaker × Option GoError
unfolding before_in
before_attempt now cb = before_in cb.state now cb

-- pruneBefore: the loop stops at the first time that is not before the cutoff.
unfoldable pub prune_before : List ℕ → ℕ → List ℕ
prune_before [] cutoff = []
prune_before (t ∷ ts) cutoff = if ltb t cutoff then prune_before ts cutoff else t ∷ ts

unfoldable pub prune_locked : ℕ → CircuitBreaker → CircuitBreaker
prune_locked now cb =
    let cutoff = now - circuit_window in
    record cb {
      failures = prune_before cb.failures cutoff;
      successes = prune_before cb.successes cutoff;
    }

-- failureRateLocked
unfoldable pub failure_rate_locked : CircuitBreaker → Float
failure_rate_locked cb =
    let total = length cb.failures + length cb.successes in
    if total == 0 then frac (pos 0) 1 else frac (pos (length cb.failures)) total

abbrev pub is_closed : CircuitState → Bool
is_closed closed = true
is_closed _ = false

abbrev pub is_half_open : CircuitState → Bool
is_half_open half_open = true
is_half_open _ = false

-- The end of recordFailure, after the window is brought up to date.
trip : CircuitBreaker → CircuitBreaker
unfolding failure_rate_locked
trip cb =
    if is_closed cb.state && leb_float cb.threshold (failure_rate_locked cb)
    then record cb { state = opened }
    else if is_half_open cb.state
    then record cb { state = opened }
    else cb

unfoldable pub record_failure : ℕ → CircuitBreaker → CircuitBreaker
unfolding prune_locked trip
record_failure now cb =
    trip (prune_locked now (record cb { failures = cb.failures ++ now ∷ []; last_failure = now }))

unfoldable pub reset_counters : CircuitBreaker → CircuitBreaker
reset_counters cb = record cb { failures = []; successes = [] }

-- The end of recordSuccess.
recover : CircuitBreaker → CircuitBreaker
unfolding reset_counters
recover cb = if is_half_open cb.state then reset_counters (record cb { state = closed }) else cb

-- The clock is read twice: for the time of the success, and for the window.
unfoldable pub record_success : ℕ → ℕ → CircuitBreaker → CircuitBreaker
unfolding prune_locked recover
record_success now later cb =
    recover (prune_locked later (record cb { successes = cb.successes ++ now ∷ [] }))

-- afterAttempt
unfoldable pub after_attempt : ℕ → ℕ → Option GoError → CircuitBreaker → CircuitBreaker
unfolding record_failure record_success
after_attempt now later none cb = record_success now later cb
after_attempt now later (some err) cb = record_failure now cb

unfoldable pub get_state : CircuitBreaker → CircuitState
get_state cb = cb.state

unfoldable pub get_failure_rate : ℕ → CircuitBreaker → CircuitBreaker × Float
unfolding prune_locked failure_rate_locked
get_failure_rate now cb = let pruned = prune_locked now cb in (pruned, failure_rate_locked pruned)

unfoldable pub force_open : ℕ → CircuitBreaker → CircuitBreaker
force_open now cb = record cb { state = opened; last_failure = now }

unfoldable pub force_close : CircuitBreaker → CircuitBreaker
unfolding reset_counters
force_close cb = reset_counters (record cb { state = closed })

-- ===== src/Tests/Retry.antt =====
-- The retry manager at concrete inputs. The state is the clock; the operation succeeds from 5 s on.
use lynx_apollo.Base.{
  ℕ, ◌+◌, ◌*◌, ◌<◌, ◌≡◌, refl, ◌⊎◌, Option, none, some, arith, pos, second, ltb, if◌then◌else◌,
  literal,
}
use Prim.Native.Nat.{min}
use lynx_apollo.Base.{pos_part}
use lynx_apollo.Errors.{GoError, plain}
use lynx_apollo.Resilience.Machine.{plain_clock}
use lynx_apollo.Resilience.Retry.{
  RetryManager, pause_before_next, new_retry_manager, do_with_retry, do_with_retry_context, rounds,
  cancelled, calculate_backoff, max_backoff,
}
use lynx_apollo.Resilience.Retry.Backoff.{calculate_backoff_doubles}
use lynx_apollo.Resilience.Retry.Outcome.{
  do_with_retry_cases, do_with_retry_context-cancelled, do_with_retry_context-eq, Succeeds,
  Exhausts,
}

abbrev failed : GoError
failed = plain (literal "failed")

abbrev late_success : ℕ → ℕ × Option GoError
late_success w = (w, if ltb w (5 * second) then some failed else none)

abbrev three : RetryManager
three = record { max_retries = pos 3; retry_interval = 1 * second; backoff_factor = 2 }

-- Pauses of 1 s, 2 s and 4 s: the fourth attempt is at 7 s.
retries : do_with_retry three late_success 0 ≡ (7 * second, none)
unfolding do_with_retry pause_before_next calculate_backoff rounds
retries = refl

do_with_retry_cases_example :
    ((k : ℕ) × (k < rounds (pos 3))
      × Succeeds three late_success k 0 (do_with_retry three late_success 0))
    ⊎ Exhausts three late_success (rounds (pos 3)) 0 (do_with_retry three late_success 0)
do_with_retry_cases_example = do_with_retry_cases three late_success 0

do_with_retry_context-cancelled_test :
    do_with_retry_context three late_success (λ s. some failed) (λ d s. (s, none)) 0
    ≡ (0, some (cancelled failed))
unfolding rounds
do_with_retry_context-cancelled_test =
    do_with_retry_context-cancelled three late_success (λ s. some failed) (λ d s. (s, none)) 0
      failed (omega arith) refl

do_with_retry_context-eq_test :
    do_with_retry_context three late_success (λ s. none) (λ d s. (s + d, none)) 0
    ≡ do_with_retry three late_success 0
do_with_retry_context-eq_test =
    do_with_retry_context-eq three late_success (λ s. none) (λ d s. (s + d, none)) (λ u. refl)
      (λ d u. refl) 0

calculate_backoff_doubles_example :
    (calculate_backoff (λ n. pos 0) (new_retry_manager (pos 3) (1 * second)) 0 ≡ pos (1 * second))
    × (calculate_backoff (λ n. pos 0) (new_retry_manager (pos 3) (1 * second)) 5
        ≡ pos (
            min max_backoff (
              2
              * pos_part
                  (calculate_backoff (λ n. pos 0) (new_retry_manager (pos 3) (1 * second)) 4))))
calculate_backoff_doubles_example =
    calculate_backoff_doubles (λ n. pos 0) (pos 3) (1 * second) 4 (omega arith) (omega arith)

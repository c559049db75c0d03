-- ===== src/Resilience/Retry.antt =====
-- resilience.go, `RetryManager`: an operation on a state `S` is tried again after growing pauses.
-- The configured interval is a positive duration; below 2 ^ 53 ns it is exact as a float64, and so is
-- each of its doublings. The factor is the constant 2.0 of NewRetryManager.
pub mod Backoff
pub mod Outcome
pub mod Cost
use lynx_apollo.Base.{
  ℕ, zero, suc, ◌*◌, ◌^◌, Option, none, some, ℤ, pos, negsuc, pos_part, ltb_ℤ, ltb, if◌then◌else◌,
  codes, decimal, second, Text, ◌++◌,
}
use lynx_apollo.Errors.{GoError, plain, wrapped}
use lynx_apollo.Resilience.Machine.{Machine}

pub record RetryManager : Type 0 where
  pub max_retries : ℤ
  pub retry_interval : ℕ
  pub backoff_factor : ℕ

unfoldable pub new_retry_manager : ℤ → ℕ → RetryManager
new_retry_manager max_retries retry_interval = record {
  max_retries = max_retries;
  retry_interval = retry_interval;
  backoff_factor = 2;
}

abbrev pub max_backoff : ℕ
max_backoff = 30 * second

-- int64(f) for a whole f; the machine decides beyond the range.
as_duration : (ℕ → ℤ) → ℕ → ℤ
as_duration out_of_range f = if ltb f (2 ^ 63) then pos f else out_of_range f

-- calculateBackoff
unfoldable pub calculate_backoff : (ℕ → ℤ) → RetryManager → ℕ → ℤ
unfolding as_duration
calculate_backoff out_of_range r attempt =
    let backoff = as_duration out_of_range (r.retry_interval * r.backoff_factor ^ attempt) in
    if ltb_ℤ (pos max_backoff) backoff then pos max_backoff else backoff

-- The attempts that the loop makes: max_retries + 1, and none if that is negative.
unfoldable pub rounds : ℤ → ℕ
rounds (pos n) = suc n
rounds (negsuc n) = 0

attempts_text : ℤ → Text
attempts_text (pos n) = decimal (suc n)
attempts_text (negsuc zero) = codes "0"
attempts_text (negsuc (suc n)) = codes "-" ++ decimal (suc n)

-- The error after the last attempt, with `%w` for a nil error as fmt prints it.
unfoldable pub exhausted : ℤ → Option GoError → GoError
unfolding attempts_text
exhausted max_retries none = plain (
    codes "operation failed after "
    ++ (attempts_text max_retries ++ codes " attempts, last error: %!w(<nil>)"))
exhausted max_retries (some err) =
    wrapped
      (codes "operation failed after "
        ++ (attempts_text max_retries ++ codes " attempts, last error: "))
      err

unfoldable pub cancelled : GoError → GoError
cancelled err = wrapped (codes "operation cancelled: ") err

unfoldable pub cancelled_in_retry : GoError → GoError
cancelled_in_retry err = wrapped (codes "operation cancelled during retry: ") err

module _ {ℓ} {S : Type ℓ} ⦃m : Machine S⦄ (r : RetryManager)
    (operation : S → S × Option GoError) where
  -- The pause after attempt number `attempt`; a negative duration does not sleep.
  unfoldable pub pause : ℕ → S → S
  pause attempt s = m.sleep (pos_part (calculate_backoff m.out_of_range r attempt)) s

  -- The pause, unless the attempt was the last.
  unfoldable pub pause_before_next : ℕ → S → S
  unfolding pause
  pause_before_next attempt s = if ltb_ℤ (pos attempt) r.max_retries then pause attempt s else s

  -- The loop, with the attempts that are left and the number of the next.
  unfoldable pub retry_loop : ℕ → ℕ → Option GoError → S → S × Option GoError
  retry_loop zero attempt last s = (s, some (exhausted r.max_retries last))
  retry_loop (suc n) attempt last s = elim (operation s).1 [
    | none ↦ ((operation s).0, none)
    | some err ↦ retry_loop n (suc attempt) (some err) (pause_before_next attempt (operation s).0)
  ]

  -- DoWithRetry
  unfoldable pub do_with_retry : S → S × Option GoError
  unfolding retry_loop
  do_with_retry s = retry_loop (rounds r.max_retries) 0 none s

  -- A context that can be cancelled: its error in a state, and a wait for a timer or the context,
  -- whichever is first.
  module _ (ctx_err : S → Option GoError) (wait : ℕ → S → S × Option GoError) where
    wait_before_next : ℕ → S → S × Option GoError
    wait_before_next attempt s =
        if ltb_ℤ (pos attempt) r.max_retries
        then wait (pos_part (calculate_backoff m.out_of_range r attempt)) s
        else (s, none)

    unfoldable pub retry_loop_context : ℕ → ℕ → Option GoError → S → S × Option GoError
    unfolding wait_before_next
    retry_loop_context zero attempt last s = (s, some (exhausted r.max_retries last))
    retry_loop_context (suc n) attempt last s = elim (ctx_err s) [
      | some err ↦ (s, some (cancelled err))
      | none ↦ elim (operation s).1 [
        | none ↦ ((operation s).0, none)
        | some failure ↦ elim (wait_before_next attempt (operation s).0).1 [
          | some err ↦ ((wait_before_next attempt (operation s).0).0, some (cancelled_in_retry err))
          | none ↦
              retry_loop_context n (suc attempt) (some failure)
                (wait_before_next attempt (operation s).0).0
        ]
      ]
    ]

    -- DoWithRetryContext
    unfoldable pub do_with_retry_context : S → S × Option GoError
    unfolding retry_loop_context
    do_with_retry_context s = retry_loop_context (rounds r.max_retries) 0 none s

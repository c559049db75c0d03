-- ===== src/Resilience/Retry/Backoff.antt =====
-- resilience.go, `calculateBackoff`: how long the pauses are.
use Prim.Native.Nat.{min}
use native.Mathlib.Nat.{pow-suc, add-zero, add-suc}
use lynx_apollo.Base.{
  ℕ, zero, suc, ◌+◌, ◌-◌, ◌*◌, ◌^◌, ◌≤◌, ◌<◌, ◌≡◌, ap, subst, ◌∙◌, ℤ, pos, pos_part, ◌≤ℤ◌, arith,
}
use lynx_apollo.Resilience.Retry.{RetryManager, new_retry_manager, calculate_backoff, max_backoff}

module _ (out_of_range : ℕ → ℤ) (r : RetryManager) where
  -- No pause is longer than 30 s, whatever the interval and the attempt.
  pub calculate_backoff-le :
      (attempt : ℕ) → calculate_backoff out_of_range r attempt ≤ℤ pos max_backoff
  unfolding calculate_backoff
  calculate_backoff-le attempt = ground arith

  -- Where the product fits an int64, the pause is the interval times factor ^ attempt, cut at 30 s.
  pub calculate_backoff-eq :
      (attempt : ℕ)
      → r.retry_interval * r.backoff_factor ^ attempt < 2 ^ 63
      → calculate_backoff out_of_range r attempt
        ≡ pos (min max_backoff (r.retry_interval * r.backoff_factor ^ attempt))
  unfolding calculate_backoff
  calculate_backoff-eq attempt h = ground arith

  -- The sum of the pauses after the first `n` attempts.
  pub total_backoff : ℕ → ℕ
  total_backoff zero = 0
  total_backoff (suc n) = total_backoff n + pos_part (calculate_backoff out_of_range r n)

  total_backoff-le : (n : ℕ) → total_backoff n ≤ n * max_backoff
  unfolding total_backoff
  total_backoff-le zero = omega arith
  total_backoff-le (suc n) = omega (arith, total_backoff-le n, pause-le)
    where
      pause-le : pos_part (calculate_backoff out_of_range r n) ≤ max_backoff
      pause-le = ground (arith, calculate_backoff-le n)

pow_mono : (k d : ℕ) → 2 ^ k ≤ 2 ^ (k + d)
pow_mono k zero = rw (add-zero k) (omega arith)
pow_mono k (suc d) = rw (add-suc k d, pow-suc 2 (k + d)) (omega (arith, pow_mono k d))

pow-le : (k : ℕ) → k ≤ 10 → 2 ^ k ≤ 1024
pow-le k h =
    let e : k + (10 - k) ≡ 10 = omega arith in subst (λ n. 2 ^ k ≤ 2 ^ n) e (pow_mono k (10 - k))

product-le :
    (interval k : ℕ) → interval ≤ max_backoff → k ≤ 10 → interval * 2 ^ k ≤ max_backoff * 1024
product-le interval k hi hk = grind (arith, pow-le k hk)

-- In the range that the validator allows, intervals up to 30 s and at most 10 retries, nothing
-- overflows: the first pause is the interval, and each later one is twice the one before, cut at 30 s.
pub calculate_backoff_doubles :
    (out_of_range : ℕ → ℤ) (max_retries : ℤ) (interval k : ℕ)
    → interval ≤ max_backoff
    → k < 10
    → let r = new_retry_manager max_retries interval in
      (calculate_backoff out_of_range r 0 ≡ pos interval)
      × (calculate_backoff out_of_range r (suc k)
          ≡ pos (min max_backoff (2 * pos_part (calculate_backoff out_of_range r k))))
unfolding new_retry_manager
calculate_backoff_doubles out_of_range max_retries interval k hi hk = (
  calculate_backoff-eq out_of_range r 0 (omega arith) ∙ ap pos (omega arith),
  rw
      (
        calculate_backoff-eq out_of_range r (suc k)
            (omega (arith, product-le interval (suc k) hi hk)),
        calculate_backoff-eq out_of_range r k
            (omega (arith, product-le interval k hi (omega arith))),
      )
      (ap pos (omega (arith, double))),
)
  where
    r : RetryManager
    r = new_retry_manager max_retries interval

    double : interval * 2 ^ suc k ≡ 2 * (interval * 2 ^ k)
    double = rw (pow-suc 2 k) (omega arith)

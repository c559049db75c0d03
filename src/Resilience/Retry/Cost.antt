-- ===== src/Resilience/Retry/Cost.antt =====
-- resilience.go, `DoWithRetry`: what the attempts cost in all, by a measure of the state.
use native.Mathlib.Nat.{suc-mul}
use lynx_apollo.Base.{
  ℕ, zero, suc, ◌+◌, ◌*◌, ◌≤◌, ◌≡◌, refl, Option, none, some, arith, pos_part, Option-cases, inl,
  inr,
}
use lynx_apollo.Errors.{GoError}
use lynx_apollo.Resilience.Machine.{Machine}
use lynx_apollo.Resilience.Retry.{
  RetryManager, calculate_backoff, rounds, pause_before_next, pause, retry_loop, do_with_retry,
}

module _ {ℓ κ} {S : Type ℓ} ⦃m : Machine S⦄ (r : RetryManager) (operation : S → S × Option GoError)
    (P : S → Type κ) (cost : S → ℕ) (each : ℕ)
    (attempt : (s : S) → P s → P (operation s).0 × (cost (operation s).0 ≤ cost s + each))
    (sleeps : (d : ℕ) (s : S) → P s → P (m.sleep d s) × (cost (m.sleep d s) ≡ cost s)) where
  pause_before_next-cost :
      (k : ℕ) (s : S)
      → P s
      → P (pause_before_next r operation k s) × (cost (pause_before_next r operation k s) ≡ cost s)
  unfolding pause_before_next pause
  pause_before_next-cost k s h =
      ground (arith, sleeps (pos_part (calculate_backoff m.out_of_range r k)) s h)

  retry_loop-cost :
      (n k : ℕ) (last : Option GoError) (s : S)
      → P s
      → P (retry_loop r operation n k last s).0
        × (cost (retry_loop r operation n k last s).0 ≤ cost s + n * each)
  unfolding retry_loop
  retry_loop-cost zero k last s h = (h, omega arith)
  retry_loop-cost (suc n) k last s h =
      let (held, within) = attempt s h in
      let (paused, same) = pause_before_next-cost k (operation s).0 held in
      let rest = λ (err : GoError).
        retry_loop-cost n (suc k) (some err) (pause_before_next r operation k (operation s).0)
          paused in
      elim (Option-cases (operation s).1) [
        | inl good ↦ rw (good, retry_loop) (held, omega (arith, suc-mul n each))
        | inr (err, bad) ↦
            rw (bad, retry_loop) ((rest err).0, omega (arith, suc-mul n each, (rest err).1))
      ]

  -- Where a property is kept, under which an attempt costs at most `each`, all attempts cost at most
  -- that times their number.
  pub do_with_retry-cost :
      (s : S)
      → P s
      → P (do_with_retry r operation s).0
        × (cost (do_with_retry r operation s).0 ≤ cost s + rounds r.max_retries * each)
  unfolding do_with_retry
  do_with_retry-cost s h = retry_loop-cost (rounds r.max_retries) 0 none s h

-- What the attempts and the pauses keep, all attempts together keep.
pub do_with_retry-keeps {ℓ κ} :
    {S : Type ℓ} ⦃m : Machine S⦄ (r : RetryManager) (operation : S → S × Option GoError)
    (P : S → Type κ)
    → ((s : S) → P s → P (operation s).0)
    → ((d : ℕ) (s : S) → P s → P (m.sleep d s))
    → (s : S) → P s
    → P (do_with_retry r operation s).0
do_with_retry-keeps r operation P attempt sleeps s h =
    (do_with_retry-cost r operation P (λ t. 0) 0 (λ t k. (attempt t k, omega arith))
      (λ d t k. (sleeps d t k, refl)) s h).0

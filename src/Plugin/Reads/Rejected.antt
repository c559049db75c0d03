-- ===== src/Plugin/Reads/Rejected.antt =====
-- config.go, `GetConfigValue`: what is left of the error of an open breaker.
use lynx_apollo.Base.{
  ℕ, zero, suc, ◌+◌, ◌≤◌, ◌<◌, ◌≡◌, ◌≢◌, ◌∙◌, ap, refl, sym, inl, inr, Text, literal, Option, none,
  some, arith,
}
use lynx_apollo.Errors.{GoError, wrap_client_error, config_get_failed}
use lynx_apollo.Metrics.{record_config_operation}
use lynx_apollo.Client.State.{Http, Result}
use lynx_apollo.Resilience.Machine.{Machine}
use lynx_apollo.Resilience.Breaker.{CircuitBreaker, opened, open_period}
use lynx_apollo.Resilience.Breaker.Gate.{guarded_rejects}
use lynx_apollo.Resilience.Retry.{RetryManager, rounds, pause_before_next, pause}
use lynx_apollo.Resilience.Retry.Outcome.{before_attempt_no, do_with_retry_cases}
use lynx_apollo.Plugin.State.{PlugApollo, check_initialized}
use lynx_apollo.Plugin.Values.{
  Call, call_machine, breaker_machine, attempt_read, new_call, attempts, finish, get_config_value,
  with_components,
}
use lynx_apollo.Plugin.Reads.{attempt_of}

module _ {W : Type 0} ⦃http : Http W⦄ ⦃m : Machine W⦄ where
  abbrev pub idle : W → W × Option GoError
  idle w = (w, none)

  -- The world before attempt number `k` when all before it read the clock and no more.
  abbrev pub rejected_world : RetryManager → ℕ → W → W
  rejected_world r zero w = w
  rejected_world r (suc k) w = pause_before_next r idle k (m.read (rejected_world r k w)).0

  -- The open period is not over at any of the attempts numbered below `n`.
  abbrev pub StaysOpen : RetryManager → CircuitBreaker → ℕ → W → Type 0
  StaysOpen r cb n w =
      (k : ℕ) → k < n → (m.read (rejected_world r k w)).1 ≤ cb.last_failure + open_period

  pause-new_call :
      (r : RetryManager)
      (operation : Call W × CircuitBreaker → (Call W × CircuitBreaker) × Option GoError) (k : ℕ)
      (p : PlugApollo) (w : W) (cb : CircuitBreaker)
      → pause_before_next r operation k (new_call p w, cb)
        ≡ (new_call p (pause_before_next r idle k w), cb)
  unfolding pause_before_next pause
  pause-new_call r operation k p w cb = ground arith

  before-rejected :
      (r : RetryManager) (namespace key : Text) (p : PlugApollo) (w : W) (cb : CircuitBreaker)
      (k : ℕ)
      → cb.state ≡ opened
      → StaysOpen r cb k w
      → before_attempt_no r (attempt_of namespace key) k (new_call p w, cb)
        ≡ (new_call p (rejected_world r k w), cb)
  before-rejected r namespace key p w cb zero o h = refl
  before-rejected r namespace key p w cb (suc k) o h = rw (
    before-rejected r namespace key p w cb k o (λ j lt. h j (omega arith)),
    guarded_rejects (attempt_read namespace key) (new_call p (rejected_world r k w)) cb o
        (h k (omega arith)),
    pause-new_call r (attempt_of namespace key) k p (m.read (rejected_world r k w)).0 cb,
  )

  attempts-rejected :
      (r : RetryManager) (namespace key : Text) (p : PlugApollo) (w : W) (cb : CircuitBreaker)
      → cb.state ≡ opened
      → StaysOpen r cb (rounds r.max_retries) w
      → let out = attempts r cb namespace key (p, w) in (out.0.0.last_err ≡ none) × (out.1 ≢ none)
  unfolding attempts
  attempts-rejected r namespace key p w cb o h =
      elim (do_with_retry_cases r (attempt_of namespace key) (new_call p w, cb)) [
        | inl (k, lt, (below, good, e)) ↦ absurd (
            let same = before-rejected r namespace key p w cb k o (λ j l. h j (omega arith)) in
            let rejects =
              guarded_rejects (attempt_read namespace key) (new_call p (rejected_world r k w)) cb o
                (h k lt) in
            let clash =
              sym good ∙ ap (λ s. (attempt_of namespace key s).1) same ∙ ap (λ x. x.1) rejects in
            ground arith)
        | inr (below, e) ↦
            let same = before-rejected r namespace key p w cb (rounds r.max_retries) o h in
            (
              ap (λ x. x.0.0.last_err) e ∙ ap (λ s. s.0.last_err) same,
              λ n. let clash = sym n ∙ ap (λ x. x.1) e in cc,
            )
      ]

  -- When the breaker is open and the open period lasts longer than the attempts with their pauses, the
  -- error of GetConfigValue has no cause: it does not say that the breaker is open.
  pub rejected_read :
      (namespace key : Text) (p : PlugApollo) (w : W) (r : RetryManager) (cb : CircuitBreaker)
      → check_initialized p ≡ none
      → p.retry_manager ≡ some r
      → p.circuit_breaker ≡ some cb
      → cb.state ≡ opened
      → StaysOpen r cb (rounds r.max_retries) w
      → (get_config_value namespace key (p, w)).1
        ≡ Result.err
            (wrap_client_error none config_get_failed (literal "failed to get config value"))
  unfolding get_config_value with_components finish
  rejected_read namespace key p w r cb ready has_r has_cb o h =
      let rejected =
        attempts-rejected r namespace key
          (record p { metrics = record_config_operation namespace "get" "start" p.metrics }) w cb o
          h in
      ground arith

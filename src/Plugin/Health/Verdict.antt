-- ===== src/Plugin/Health/Verdict.antt =====
-- health.go: what the health check answers.
use lynx_apollo.Base.{
  ℕ, zero, suc, ◌<◌, ◌≡◌, ◌≢◌, refl, sym, ◌∙◌, ◌⊎◌, inl, inr, Text, codes, literal, contains,
  contains-append_left, contains-middle, [], true, false, ◌++◌, Option, none, some, arith,
}
use Prim.Native.String.{String}
use lynx_apollo.Errors.{
  GoError, error_text, code_text, wrap_error, new_apollo_error, with_cause, wrap_client_error,
  health_check_failed, config_get_failed,
}
use lynx_apollo.Metrics.{record_health_check, record_config_operation}
use lynx_apollo.Client.State.{Http}
use lynx_apollo.Client.Requests.{key_not_found}
use lynx_apollo.Resilience.Machine.{Machine}
use lynx_apollo.Resilience.Breaker.{CircuitBreaker, opened}
use lynx_apollo.Resilience.Retry.{RetryManager, rounds, pause_before_next, pause}
use lynx_apollo.Resilience.Retry.Outcome.{
  before_attempt_no, result_of, last_error, Fails, do_with_retry_cases,
}
use lynx_apollo.Plugin.State.{PlugApollo, check_initialized}
use lynx_apollo.Plugin.Values.{attempts, finish, with_components, get_config_value}
use lynx_apollo.Plugin.Reads.Rejected.{StaysOpen, rejected_read}
use lynx_apollo.Plugin.Health.{
  health_key, test_namespace, says_missing, connection_failed_error, Check, new_check,
  check_machine, attempt_check, check_client_connection, check_config_management_health,
  finish_check, check_with, check_apollo_health, check_health, judge,
}

key_not_found-contains :
    (key namespace : Text)
    → contains (error_text (key_not_found key namespace)) (codes "not found") ≡ true
unfolding error_text key_not_found
key_not_found-contains key namespace = contains-append_left (codes "config key ") _ _ (
    contains-append_left key _ _ (
      contains-append_left (codes " ") _ _
        (contains-middle [] (codes "not found") (codes " in namespace " ++ namespace))))

-- The error of a missing key says so, wrapped by GetConfigValue too.
missing_says :
    (key namespace message : Text)
    → says_missing
        (wrap_client_error (some (key_not_found key namespace)) config_get_failed message)
      ≡ true
unfolding says_missing wrap_client_error wrap_error error_text new_apollo_error with_cause
missing_says key namespace message =
    let found : contains
          (error_text
            (wrap_client_error (some (key_not_found key namespace)) config_get_failed message))
          (codes "not found")
        ≡ true =
      contains-append_left (codes "[" ++ (code_text config_get_failed ++ codes "]")) _ _ (
        contains-append_left (codes " " ++ message) _ _ (
          contains-append_left (codes " caused by: ") _ _
            (key_not_found-contains key namespace))) in
    ground arith

no_cause_says_nothing :
    says_missing (wrap_client_error none config_get_failed (literal "failed to get config value"))
    ≡ false
unfolding says_missing wrap_client_error wrap_error error_text new_apollo_error with_cause literal
    contains
no_cause_says_nothing = refl

-- The plugin and the world of a check, with the metric for its end.
abbrev pub ended :
    {W : Type 0} → String → Check W → Option GoError → (PlugApollo × W) × Option GoError
ended outcome c e =
    ((record c.plugin { metrics = record_health_check outcome c.plugin.metrics }, c.world), e)

module _ {W : Type 0} ⦃http : Http W⦄ ⦃m : Machine W⦄ where
  attempt_check-health_err :
      (c : Check W) (e : GoError)
      → (attempt_check c).1 ≡ some e
      → (attempt_check c).0.health_err ≡ some e
  unfolding attempt_check check_config_management_health
  attempt_check-health_err c e h = ground arith

  pause-health_err :
      (r : RetryManager) (k : ℕ) (c : Check W)
      → (pause_before_next r attempt_check k c).health_err ≡ c.health_err
  unfolding pause_before_next pause
  pause-health_err r k c = ground arith

  -- After attempts that failed, `healthErr` is the error of the last.
  health_err_last :
      (r : RetryManager) (k : ℕ) (p : PlugApollo) (w : W)
      → ((j : ℕ) → j < k → Fails r attempt_check j (new_check p w))
      → (before_attempt_no r attempt_check k (new_check p w)).health_err
        ≡ last_error r attempt_check k (new_check p w)
  health_err_last r zero p w fails = refl
  health_err_last r (suc k) p w fails =
      let (e, bad) = fails k (omega arith) in
      pause-health_err r k (attempt_check (before_attempt_no r attempt_check k (new_check p w))).0
      ∙ attempt_check-health_err (before_attempt_no r attempt_check k (new_check p w)) e bad
      ∙ sym bad

  -- Where CheckHealth gets as far as its attempts, either one of max_retries + 1 succeeds after all
  -- before it have failed, and then no other runs: the plugin and the world are those after that
  -- attempt, with the metric for success, and no error is reported. Or all max_retries + 1 fail and no
  -- other runs: the plugin and the world are those after the last, with the metric for an error, and
  -- the error has the code for a failed health check and wraps that of the last attempt.
  pub check_health_cases :
      (p : PlugApollo) (w : W) (r : RetryManager) (cb : CircuitBreaker)
      → check_initialized p ≡ none
      → p.client ≢ none
      → p.retry_manager ≡ some r
      → p.circuit_breaker ≡ some cb
      → let c = new_check (record p { metrics = record_health_check "start" p.metrics }) w in
        ((k : ℕ) × (k < rounds r.max_retries)
          × ((j : ℕ) → j < k → Fails r attempt_check j c)
          × (result_of r attempt_check k c ≡ none)
          × (check_health (p, w)
              ≡ ended "success" (attempt_check (before_attempt_no r attempt_check k c)).0 none))
        ⊎ (((j : ℕ) → j < rounds r.max_retries → Fails r attempt_check j c)
            × (check_health (p, w)
                ≡ ended "error" (before_attempt_no r attempt_check (rounds r.max_retries) c) (
                    some (
                      wrap_client_error
                        (last_error r attempt_check (rounds r.max_retries) c)
                        health_check_failed
                        (literal "Apollo configuration center health check failed")))))
  unfolding check_health check_apollo_health check_with finish_check
  check_health_cases p w r cb ready has_client has_r has_cb =
      let started = record p { metrics = record_health_check "start" p.metrics } in
      elim (do_with_retry_cases r attempt_check (new_check started w)) [
        | inl (k, lt, (below, good, e)) ↦ inl (k, lt, below, good, ground arith)
        | inr (below, e) ↦ inr (
          below,
          let last = health_err_last r (rounds r.max_retries) started w below in ground arith,
        )
      ]

  -- Where the last attempt of the read that ran ended because the key is not on the server, the
  -- connection counts as good: the text of the error that GetConfigValue makes of it still says so.
  pub missing_key_is_healthy :
      (p : PlugApollo) (w : W) (r : RetryManager) (cb : CircuitBreaker) (key namespace : Text)
      → check_initialized p ≡ none
      → p.retry_manager ≡ some r
      → p.circuit_breaker ≡ some cb
      → (attempts r cb (test_namespace p.conf) health_key (
        record p {
          metrics = record_config_operation (test_namespace p.conf) "get" "start" p.metrics;
        },
        w,
      )).0.0.last_err
        ≡ some (key_not_found key namespace)
      → (check_client_connection (p, w)).1 ≡ none
  unfolding check_client_connection judge get_config_value with_components finish
  missing_key_is_healthy p w r cb key namespace ready has_r has_cb last =
      ground (arith, missing_says key namespace (literal "failed to get config value"))

  -- Where the breaker is open, and stays so over all the attempts of the read, the connection counts
  -- as failed, and the error does not say that the breaker is open.
  pub open_breaker_is_unhealthy :
      (p : PlugApollo) (w : W) (r : RetryManager) (cb : CircuitBreaker)
      → check_initialized p ≡ none
      → p.retry_manager ≡ some r
      → p.circuit_breaker ≡ some cb
      → cb.state ≡ opened
      → StaysOpen r cb (rounds r.max_retries) w
      → (check_client_connection (p, w)).1
        ≡ some (
            connection_failed_error
              (wrap_client_error none config_get_failed (literal "failed to get config value")))
  unfolding check_client_connection judge
  open_breaker_is_unhealthy p w r cb ready has_r has_cb o h =
      let rejected =
        rejected_read (test_namespace p.conf) health_key p w r cb ready has_r has_cb o h in
      ground (arith, no_cause_says_nothing)

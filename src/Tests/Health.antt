-- ===== src/Tests/Health.antt =====
-- The health check at concrete inputs, on a server that answers and does not have its key.
use lynx_apollo.Base.{
  ℕ, zero, suc, ◌<◌, ◌*◌, ◌≡◌, ◌⊎◌, refl, codes, literal, [], ◌∷◌, none, some, arith, pos, frac,
  second, contains, text_eq,
}
use lynx_apollo.Errors.{
  error_text, wrap_error, new_apollo_error, with_cause, wrap_client_error, config_get_failed,
  health_check_failed,
}
use lynx_apollo.Metrics.{record_health_check, record_config_operation}
use lynx_apollo.Client.Requests.{
  lookup, get_config, get_config_value as fetch_value, get_config_server, fetch_config,
  key_not_found,
}
use lynx_apollo.Client.Servers.{parse_servers, http_prefix, https_prefix}
use lynx_apollo.Resilience.Machine.{plain_clock}
use lynx_apollo.Resilience.Breaker.{
  CircuitBreaker, opened, new_circuit_breaker, before_attempt, record_failure, record_success,
  prune_before,
}
use lynx_apollo.Resilience.Breaker.Guard.{guarded}
use lynx_apollo.Resilience.Retry.{
  retry_loop, do_with_retry, RetryManager, rounds, pause_before_next, calculate_backoff,
}
use lynx_apollo.Resilience.Retry.Outcome.{before_attempt_no, Fails, result_of, last_error}
use lynx_apollo.Plugin.State.{PlugApollo, new_apollo_config_center, check_initialized}
use lynx_apollo.Plugin.Values.{
  cache_key, cache_enabled, get_config_value_from_apollo, get_config_value, with_components, finish,
  attempts, attempt_read,
}
use lynx_apollo.Plugin.Reads.Rejected.{StaysOpen}
use lynx_apollo.Plugin.Health.{
  check_apollo_health, check_with, finish_check, health_key, test_namespace,
  connection_failed_error, new_check, check_machine, attempt_check, check_client_connection,
  check_health, says_missing, judge, check_config_management_health,
}
use lynx_apollo.Plugin.Health.Verdict.{
  ended, check_health_cases, missing_key_is_healthy, open_breaker_is_unhealthy,
}
use lynx_apollo.Tests.Client.{demo_http, ready_client}
use lynx_apollo.Tests.Plugin.{running}

-- One attempt.
abbrev once : RetryManager
once = record { max_retries = pos 0; retry_interval = 1 * second; backoff_factor = 2 }

abbrev calm : CircuitBreaker
calm = new_circuit_breaker (frac (pos 1) 2)

abbrev checked : PlugApollo
checked = record running { retry_manager = some once; client = some ready_client }

first_check_test : (check_health {W = ℕ} (checked, 0)).1 ≡ none
unfolding check_health check_apollo_health check_with finish_check do_with_retry retry_loop
    attempt_check check_client_connection judge says_missing check_config_management_health
    test_namespace get_config_value with_components finish attempts attempt_read guarded
    before_attempt record_failure record_success get_config_value_from_apollo cache_enabled
    new_apollo_config_center cache_key get_config get_config_server fetch_config fetch_value
    parse_servers http_prefix https_prefix lookup check_initialized new_circuit_breaker rounds
    pause_before_next calculate_backoff key_not_found wrap_client_error wrap_error new_apollo_error
    with_cause error_text contains literal text_eq
first_check_test = refl

-- The first check has opened the breaker, and the second fails.
second_check_test :
    (check_health {W = ℕ} (check_health {W = ℕ} (checked, 0)).0).1
    ≡ some (
        wrap_client_error
          (some (
            connection_failed_error
              (wrap_client_error none config_get_failed (literal "failed to get config value"))))
          health_check_failed
          (literal "Apollo configuration center health check failed"))
unfolding check_health check_apollo_health check_with finish_check do_with_retry retry_loop
    attempt_check check_client_connection judge says_missing check_config_management_health
    test_namespace get_config_value with_components finish attempts attempt_read guarded
    before_attempt record_failure record_success get_config_value_from_apollo cache_enabled
    new_apollo_config_center cache_key get_config get_config_server fetch_config fetch_value
    parse_servers http_prefix https_prefix lookup check_initialized new_circuit_breaker rounds
    pause_before_next calculate_backoff key_not_found wrap_client_error wrap_error new_apollo_error
    with_cause error_text contains literal text_eq prune_before
second_check_test = refl

-- The attempts of the first check's read: the last error is that of the missing key.
missing_test :
    (attempts {W = ℕ} once calm (codes "application") health_key (
      record checked {
        metrics = record_config_operation (codes "application") "get" "start" checked.metrics;
      },
      0,
    )).0.0.last_err
    ≡ some (key_not_found health_key (codes "application"))
unfolding check_health check_apollo_health check_with finish_check do_with_retry retry_loop
    attempt_check check_client_connection judge says_missing check_config_management_health
    test_namespace get_config_value with_components finish attempts attempt_read guarded
    before_attempt record_failure record_success get_config_value_from_apollo cache_enabled
    new_apollo_config_center cache_key get_config get_config_server fetch_config fetch_value
    parse_servers http_prefix https_prefix lookup check_initialized new_circuit_breaker rounds
    pause_before_next calculate_backoff key_not_found wrap_client_error wrap_error new_apollo_error
    with_cause error_text contains literal text_eq
missing_test = refl

missing_key_is_healthy_test : (check_client_connection {W = ℕ} (checked, 0)).1 ≡ none
unfolding test_namespace check_initialized new_apollo_config_center
missing_key_is_healthy_test =
    missing_key_is_healthy checked 0 once calm health_key (codes "application") refl refl refl
      missing_test

abbrev tripped : CircuitBreaker
tripped = record calm { failures = 5 ∷ []; last_failure = 5; state = opened }

stays : StaysOpen {W = ℕ} once tripped 1 5
stays zero h = omega arith
stays (suc k) h = absurd (omega arith)

open_breaker_is_unhealthy_example :
    (check_client_connection {W = ℕ} (record checked { circuit_breaker = some tripped }, 5)).1
    ≡ some (
        connection_failed_error
          (wrap_client_error none config_get_failed (literal "failed to get config value")))
unfolding check_initialized new_apollo_config_center rounds
open_breaker_is_unhealthy_example =
    open_breaker_is_unhealthy (record checked { circuit_breaker = some tripped }) 5 once tripped
      refl refl refl refl stays

check_health_cases_example :
    let c =
      new_check {W = ℕ}
        (record checked { metrics = record_health_check "start" checked.metrics })
        0 in
    ((k : ℕ) × (k < rounds (pos 0))
      × ((j : ℕ) → j < k → Fails once attempt_check j c)
      × (result_of once attempt_check k c ≡ none)
      × (check_health {W = ℕ} (checked, 0)
          ≡ ended "success" (attempt_check (before_attempt_no once attempt_check k c)).0 none))
    ⊎ (((j : ℕ) → j < rounds (pos 0) → Fails once attempt_check j c)
        × (check_health {W = ℕ} (checked, 0)
            ≡ ended "error" (before_attempt_no once attempt_check (rounds (pos 0)) c) (
                some (
                  wrap_client_error
                    (last_error once attempt_check (rounds (pos 0)) c)
                    health_check_failed
                    (literal "Apollo configuration center health check failed")))))
unfolding check_initialized new_apollo_config_center
check_health_cases_example = check_health_cases checked 0 once calm refl (λ e. cc) refl refl

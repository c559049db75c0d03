-- ===== src/Plugin/Traffic.antt =====
-- config.go and health.go: how many requests the operations send.
use lynx_apollo.Base.{ℕ, ◌∙◌, suc, ◌+◌, ◌*◌, ◌≤◌, ◌≡◌, refl, Option, none, some, Text, arith}
use lynx_apollo.Errors.{GoError}
use lynx_apollo.Client.State.{Client, Request, Http, Result, ok, err}
use lynx_apollo.Client.Requests.{get_config_value as fetch_value}
use lynx_apollo.Metrics.{record_health_check, record_cache_miss, record_config_operation}
use lynx_apollo.Resilience.Machine.{Machine}
use lynx_apollo.Resilience.Breaker.{CircuitBreaker}
use lynx_apollo.Resilience.Breaker.Guard.{guarded, guarded-cost}
use lynx_apollo.Resilience.Retry.{RetryManager, rounds, do_with_retry}
use lynx_apollo.Resilience.Retry.Cost.{do_with_retry-cost}
use lynx_apollo.Plugin.State.{PlugApollo, get_namespace}
use lynx_apollo.Plugin.Values.{
  get_config_value_from_apollo, store_value, attempt_read, Call, call_machine, breaker_machine,
  new_call, attempts, with_components, finish, get_config_value,
}
use lynx_apollo.Plugin.Health.{
  Check, new_check, check_machine, check_health, check_apollo_health, check_with, finish_check,
  check_config_management_health, attempt_check, check_client_connection, test_namespace,
  health_key,
}
use lynx_apollo.Plugin.Keeps.{Keeps, attempt_check-Keeps, judge_state}
use lynx_apollo.Client.Sends.{fetch_value-sends}

-- A count of the requests that were sent: each request adds one, and the clock and the sleeps none.
pub record Meter {W : Type 0} (http : Http W) (m : Machine W) (sent : W → ℕ) : Type 0 where
  pub counts : (r : Request) (w : W) → sent (http.send r w).0 ≡ suc (sent w)
  pub reads : (w : W) → sent (m.read w).0 ≡ sent w
  pub sleeps : (d : ℕ) (w : W) → sent (m.sleep d w) ≡ sent w

module _ {W : Type 0} ⦃http : Http W⦄ where
  store_value-world :
      (namespace key : Text) (out : (Client × W) × Result Text) (p : PlugApollo)
      → (store_value namespace key out p).0.1 ≡ out.0.1
  unfolding store_value
  store_value-world namespace key (s, ok v) p = refl
  store_value-world namespace key (s, err e) p = refl

  module _ (sent : W → ℕ)
      (counts : (r : Request) (w : W) → sent (http.send r w).0 ≡ suc (sent w)) where
    read-sends :
        (namespace key : Text) (p : PlugApollo) (w : W)
        → sent (get_config_value_from_apollo namespace key (p, w)).0.1 ≤ sent w + 2
    unfolding get_config_value_from_apollo
    read-sends namespace key p w =
        elim p.client
          as (λ o.
            sent (get_config_value_from_apollo namespace key (record p { client = o }, w)).0.1
            ≤ sent w + 2) [
              | none ↦ omega arith
              | some c ↦
                  let asked = fetch_value namespace key (c, w) in
                  ground (
                    arith,
                    fetch_value-sends sent counts namespace key c w,
                    store_value-world namespace key asked p,
                    store_value-world namespace key asked
                        (record p { metrics = record_cache_miss (get_namespace p) p.metrics }),
                  )
            ]

check_none : (p : PlugApollo) → check_config_management_health p ≡ none
unfolding check_config_management_health
check_none p = refl

finish_check-world :
    {W : Type 0} (out : Check W × Option GoError) → (finish_check out).0.1 ≡ out.0.world
unfolding finish_check
finish_check-world (c, none) = refl
finish_check-world (c, some e) = refl

module _ {W : Type 0} ⦃http : Http W⦄ ⦃m : Machine W⦄ (sent : W → ℕ)
    (meter : Meter http m sent) where
  -- The requests that the world of a call has seen.
  abbrev of_call : Call W × CircuitBreaker → ℕ
  of_call s = sent s.0.world

  attempt_read-sends :
      (namespace key : Text) (c : Call W)
      → sent (attempt_read namespace key c).0.world ≤ sent c.world + 2
  unfolding attempt_read
  attempt_read-sends namespace key c =
      ground (arith, read-sends sent meter.counts namespace key c.plugin c.world)

  guarded-sends :
      (namespace key : Text) (s : Call W × CircuitBreaker)
      → of_call (guarded (attempt_read namespace key) s).0 ≤ of_call s + 2
  guarded-sends namespace key s =
      guarded-cost (λ (c : Call W). sent c.world) (λ c. meter.reads c.world)
        (attempt_read namespace key) 2 s (attempt_read-sends namespace key)

  attempts-sends :
      (namespace key : Text) (s : PlugApollo × W) (r : RetryManager) (cb : CircuitBreaker)
      → of_call (attempts r cb namespace key s).0 ≤ sent s.1 + rounds r.max_retries * 2
  unfolding attempts
  attempts-sends namespace key (p, w) r cb =
      (do_with_retry-cost r (guarded (attempt_read namespace key)) (λ s. Unit {0}) of_call 2
        (λ s h. (tt, guarded-sends namespace key s)) (λ d s h. (tt, meter.sleeps d s.0.world))
        (new_call p w, cb) tt).1

  finish-world :
      (namespace : Text) (out : (Call W × CircuitBreaker) × Option GoError)
      → (finish namespace out).0.1 ≡ out.0.0.world
  unfolding finish
  finish-world namespace (s, none) = refl
  finish-world namespace (s, some e) = refl

  with_components-sends :
      (namespace key : Text) (s : PlugApollo × W) (breaker : Option CircuitBreaker)
      (r : RetryManager)
      → sent (with_components breaker (some r) namespace key s).0.1
        ≤ sent s.1 + rounds r.max_retries * 2
  unfolding with_components
  with_components-sends namespace key s none r = omega arith
  with_components-sends namespace key s (some cb) r =
      rw (finish-world namespace (attempts r cb namespace key s))
        (attempts-sends namespace key s r cb)

  get_config_value-sends :
      (namespace key : Text) (p : PlugApollo) (w : W) (r : RetryManager)
      → p.retry_manager ≡ some r
      → sent (get_config_value namespace key (p, w)).0.1 ≤ sent w + rounds r.max_retries * 2
  unfolding get_config_value
  get_config_value-sends namespace key p w r has = ground (
    arith,
    with_components-sends namespace key
        (record p { metrics = record_config_operation namespace "get" "start" p.metrics }, w)
        p.circuit_breaker r,
  )

  -- The check's read goes through the retries of GetConfigValue, inside its own.
  connection-sends :
      (p : PlugApollo) (w : W) (r : RetryManager)
      → p.retry_manager ≡ some r
      → sent (check_client_connection (p, w)).0.1 ≤ sent w + rounds r.max_retries * 2
  unfolding check_client_connection
  connection-sends p w r has =
      rw (judge_state (get_config_value (test_namespace p.conf) health_key (p, w)))
        (get_config_value-sends (test_namespace p.conf) health_key p w r has)

  attempt_check-sends :
      (r : RetryManager) (c : Check W)
      → c.plugin.retry_manager ≡ some r
      → sent (attempt_check c).0.world ≤ sent c.world + rounds r.max_retries * 2
  unfolding attempt_check
  attempt_check-sends r c has = ground (
    arith,
    connection-sends c.plugin c.world r has,
    check_none (check_client_connection (c.plugin, c.world)).0.0,
  )

  attempt_check-manager :
      (c : Check W) → (attempt_check c).0.plugin.retry_manager ≡ c.plugin.retry_manager
  unfolding Keeps
  attempt_check-manager c = (attempt_check-Keeps c).3

  check_attempts-sends :
      (r : RetryManager) (p : PlugApollo) (w : W)
      → p.retry_manager ≡ some r
      → sent (do_with_retry r attempt_check (new_check p w)).0.world
        ≤ sent w + rounds r.max_retries * (rounds r.max_retries * 2)
  check_attempts-sends r p w has =
      (do_with_retry-cost r attempt_check (λ (c : Check W). c.plugin.retry_manager ≡ some r)
        (λ c. sent c.world) (rounds r.max_retries * 2)
        (λ c h. (attempt_check-manager c ∙ h, attempt_check-sends r c h))
        (λ d c h. (h, meter.sleeps d c.world)) (new_check p w) has).1

  check_with-sends :
      (breaker : Option CircuitBreaker) (p : PlugApollo) (w : W) (r : RetryManager)
      → p.retry_manager ≡ some r
      → sent (check_with breaker (some r) (p, w)).0.1
        ≤ sent w + rounds r.max_retries * (rounds r.max_retries * 2)
  unfolding check_with
  check_with-sends none p w r has = omega arith
  check_with-sends (some cb) p w r has =
      rw (finish_check-world (do_with_retry r attempt_check (new_check p w)))
        (check_attempts-sends r p w has)

  check_health-sends :
      (p : PlugApollo) (w : W) (r : RetryManager)
      → p.retry_manager ≡ some r
      → sent (check_health (p, w)).0.1 ≤ sent w + rounds r.max_retries * (rounds r.max_retries * 2)
  unfolding check_health check_apollo_health
  check_health-sends p w r has = ground (
    arith,
    check_with-sends p.circuit_breaker
        (record p { metrics = record_health_check "start" p.metrics }) w r has,
  )

  -- No operation floods the server: with n attempts configured a GetConfigValue sends at most 2 * n
  -- requests, and a CheckHealth, which reads through GetConfigValue in attempts of its own, at most
  -- 2 * n * n.
  pub requests_are_bounded :
      (namespace key : Text) (p : PlugApollo) (w : W) (r : RetryManager)
      → p.retry_manager ≡ some r
      → (sent (get_config_value namespace key (p, w)).0.1 ≤ sent w + rounds r.max_retries * 2)
        × (sent (check_health (p, w)).0.1
            ≤ sent w + rounds r.max_retries * (rounds r.max_retries * 2))
  requests_are_bounded namespace key p w r has =
      (get_config_value-sends namespace key p w r has, check_health-sends p w r has)

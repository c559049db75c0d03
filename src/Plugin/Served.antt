-- ===== src/Plugin/Served.antt =====
-- config.go: a read that the server can answer.
use lynx_apollo.Base.{ℕ, ◌≡◌, ◌⊎◌, Text, Option, none, some, pos, arith, ◌∙◌}
use lynx_apollo.Errors.{GoError}
use lynx_apollo.Metrics.{record_config_operation}
use lynx_apollo.Client.State.{Client, ConfigResponse, Http, Result}
use lynx_apollo.Client.Requests.{lookup, get_config, get_config_value as fetch_value}
use lynx_apollo.Resilience.Machine.{Machine}
use lynx_apollo.Resilience.Breaker.{
  CircuitBreaker, closed, half_open, before_attempt, record_success,
}
use lynx_apollo.Resilience.Breaker.Guard.{guarded}
use lynx_apollo.Resilience.Retry.{RetryManager, do_with_retry, retry_loop, rounds}
use lynx_apollo.Plugin.State.{PlugApollo, check_initialized}
use lynx_apollo.Plugin.Values.{
  cache_key, get_config_value_from_apollo, Call, call_machine, breaker_machine, attempt_read,
  new_call, attempts, finish, get_config_value, with_components,
}
use lynx_apollo.Plugin.Watching.Changes.{uncached_read}

-- The plugin is initialized, has its components, makes an attempt at least, and its breaker is not open.
pub record Able (p : PlugApollo) : Type 0 where
  pub retry : RetryManager
  pub breaker : CircuitBreaker
  pub retries : ℕ
  pub ready : check_initialized p ≡ none
  pub has_retry : p.retry_manager ≡ some retry
  pub has_breaker : p.circuit_breaker ≡ some breaker
  pub not_negative : retry.max_retries ≡ pos retries
  pub admits : (breaker.state ≡ closed) ⊎ (breaker.state ≡ half_open)

-- A first attempt that succeeds is the only one.
first_attempt {ℓ} :
    {S : Type ℓ} ⦃m : Machine S⦄ (r : RetryManager) (operation : S → S × Option GoError) (n : ℕ)
    (s : S)
    → r.max_retries ≡ pos n
    → (operation s).1 ≡ none
    → do_with_retry r operation s ≡ ((operation s).0, none)
unfolding do_with_retry retry_loop rounds
first_attempt r operation n s h good = ground arith

module _ {W : Type 0} ⦃http : Http W⦄ ⦃m : Machine W⦄ where
  admitted_read :
      (namespace key value : Text) (c : Call W) (cb : CircuitBreaker)
      → (cb.state ≡ closed) ⊎ (cb.state ≡ half_open)
      → (get_config_value_from_apollo namespace key (c.plugin, c.world)).1 ≡ Result.ok value
      → let out = guarded (attempt_read namespace key) (c, cb) in
        (out.1 ≡ none) × (out.0.0.value ≡ value)
  unfolding guarded before_attempt attempt_read record_success
  admitted_read namespace key value c cb admits good = ground arith

  read_succeeds :
      (namespace key value : Text) (p : PlugApollo) (w : W) (r : RetryManager) (cb : CircuitBreaker)
      (n : ℕ)
      → check_initialized p ≡ none
      → p.retry_manager ≡ some r
      → p.circuit_breaker ≡ some cb
      → r.max_retries ≡ pos n
      → (cb.state ≡ closed) ⊎ (cb.state ≡ half_open)
      → (get_config_value_from_apollo namespace key
          (record p { metrics = record_config_operation namespace "get" "start" p.metrics }, w)).1
        ≡ Result.ok value
      → (get_config_value namespace key (p, w)).1 ≡ Result.ok value
  unfolding get_config_value with_components attempts finish
  read_succeeds namespace key value p w r cb n ready has_r has_cb retries admits good =
      let call =
        new_call (record p { metrics = record_config_operation namespace "get" "start" p.metrics })
          w in
      let (ran, found) = admitted_read namespace key value call cb admits good in
      let once = first_attempt r (guarded (attempt_read namespace key)) n (call, cb) retries ran in
      ground arith

  fetch-served :
      (namespace key value : Text) (c : Client) (w : W) (response : ConfigResponse)
      → (get_config namespace (c, w)).1 ≡ Result.ok response
      → lookup key response.configurations ≡ some value
      → (fetch_value namespace key (c, w)).1 ≡ Result.ok value
  unfolding fetch_value
  fetch-served namespace key value c w response got has = ground arith

  -- On a plugin that is able to read, a key that the cache does not have and the server does is read:
  -- GetConfigValue returns the server's value, by its first attempt.
  pub served_value_is_read :
      (namespace key value : Text) (p : PlugApollo) (w : W) (c : Client) (response : ConfigResponse)
      → Able p
      → p.client ≡ some c
      → lookup (cache_key namespace key) p.config_cache ≡ none
      → (get_config namespace (c, w)).1 ≡ Result.ok response
      → lookup key response.configurations ≡ some value
      → (get_config_value namespace key (p, w)).1 ≡ Result.ok value
  served_value_is_read namespace key value p w c response able has_c missing got has =
      read_succeeds namespace key value p w able.retry able.breaker able.retries able.ready
        able.has_retry able.has_breaker able.not_negative able.admits
        (uncached_read namespace key c _ w has_c missing
          ∙ fetch-served namespace key value c w response got has)

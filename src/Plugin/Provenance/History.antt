-- ===== src/Plugin/Provenance/History.antt =====
-- apollo.go, lifecycle_context.go, cleanup.go, health.go and watchers.go: where the values come from,
-- over any sequence of the plugin's operations.
use lynx_apollo.Base.{
  ◌≡◌, refl, sym, subst, ◌⊎◌, inl, inr, Text, List, [], ◌∷◌, Option, none, some, arith,
  Option-cases, Bool-cases,
}
use lynx_apollo.Errors.{GoError}
use lynx_apollo.Metrics.{Registry, record_health_check}
use lynx_apollo.Client.State.{Http, Result}
use lynx_apollo.Client.Requests.{lookup}
use lynx_apollo.Resilience.Machine.{Machine}
use lynx_apollo.Resilience.Breaker.{CircuitBreaker}
use lynx_apollo.Resilience.Retry.{RetryManager, do_with_retry}
use lynx_apollo.Resilience.Retry.Cost.{do_with_retry-keeps}
use lynx_apollo.Validator.Result.{Externals}
use lynx_apollo.Plugin.State.{PlugApollo, new_apollo_config_center, check_initialized}
use lynx_apollo.Plugin.Values.{cache_key, call_machine, breaker_machine, get_config_value}
use lynx_apollo.Plugin.Reads.{get_config_value_source}
use lynx_apollo.Plugin.Health.{
  Check, settle_check, new_check, check_machine, check_client_connection, attempt_check, check_with,
  finish_check, check_health, check_apollo_health, check_config_management_health, test_namespace,
  health_key,
}
use lynx_apollo.Plugin.Keeps.{judge_state}
use lynx_apollo.Plugin.Watching.{watch_config, finish_watch, begin_watch, commit_watch, start_in}
use lynx_apollo.Plugin.Setup.{
  Framework, initialize_resources, init_components, validate_plugin_config,
}
use lynx_apollo.Plugin.Startup.{startup, start_with, roll_back}
use lynx_apollo.Plugin.Cleanup.{cleanup, tear_down}
use lynx_apollo.Plugin.Calls.{Event, load, start, stop, check, read, watch, deliver, apply, run}
use lynx_apollo.Plugin.Provenance.{
  Provided, AllProvided, changes-AllProvided, get_config_value-AllProvided,
}

module _ {W : Type 0} ⦃http : Http W⦄ ⦃m : Machine W⦄ where
  connection-AllProvided :
      (p : PlugApollo) (w : W)
      → AllProvided http p.config_cache
      → AllProvided http (check_client_connection (p, w)).0.0.config_cache
  unfolding check_client_connection
  connection-AllProvided p w h =
      subst (λ s. AllProvided http s.0.config_cache)
        (sym (judge_state (get_config_value (test_namespace p.conf) health_key (p, w))))
        (get_config_value-AllProvided (test_namespace p.conf) health_key p w h)

  settled_check-cache :
      (c : Check W) (out : (PlugApollo × W) × Option GoError)
      → (settle_check c out).0.plugin.config_cache ≡ out.0.0.config_cache
  unfolding check_config_management_health
  settled_check-cache c ((p, w), some e) = refl
  settled_check-cache c ((p, w), none) = refl

  attempt_check-AllProvided :
      (c : Check W)
      → AllProvided http c.plugin.config_cache
      → AllProvided http (attempt_check c).0.plugin.config_cache
  unfolding attempt_check
  attempt_check-AllProvided c h =
      subst (AllProvided http)
        (sym (settled_check-cache c (check_client_connection (c.plugin, c.world))))
        (connection-AllProvided c.plugin c.world h)

  finish_check-cache :
      (out : Check W × Option GoError)
      → (finish_check out).0.0.config_cache ≡ out.0.plugin.config_cache
  unfolding finish_check
  finish_check-cache (c, none) = refl
  finish_check-cache (c, some e) = refl

  check_with-AllProvided :
      (breaker : Option CircuitBreaker) (retry : Option RetryManager) (s : PlugApollo × W)
      → AllProvided http s.0.config_cache
      → AllProvided http (check_with breaker retry s).0.0.config_cache
  unfolding check_with
  check_with-AllProvided (some cb) (some r) (p, w) h =
      subst (AllProvided http)
        (sym (finish_check-cache (do_with_retry r attempt_check (new_check p w))))
        (do_with_retry-keeps r attempt_check
          (λ (c : Check W). AllProvided http c.plugin.config_cache) attempt_check-AllProvided
          (λ d c k. k) (new_check p w) h)
  check_with-AllProvided none retry s h = h
  check_with-AllProvided (some cb) none s h = h

  check_health_cases :
      (p : PlugApollo) (w : W)
      → ((check_health (p, w)).0.0 ≡ p)
        ⊎ (check_health (p, w)
            ≡ check_with p.circuit_breaker p.retry_manager
                (record p { metrics = record_health_check "start" p.metrics }, w))
  unfolding check_health check_apollo_health
  check_health_cases p w = elim (Option-cases (check_initialized p)) [
    | inr (e, bad) ↦ inl (ground arith)
    | inl ready ↦ elim (Option-cases p.client) [
      | inl gone ↦ inl (ground arith)
      | inr (c, is) ↦ inr (ground arith)
    ]
  ]

  check_health-AllProvided :
      (p : PlugApollo) (w : W)
      → AllProvided http p.config_cache
      → AllProvided http (check_health (p, w)).0.0.config_cache
  check_health-AllProvided p w h = elim (check_health_cases p w) [
    | inl same ↦ subst (λ q. AllProvided http q.config_cache) (sym same) h
    | inr ran ↦
        subst (λ out. AllProvided http out.0.0.config_cache) (sym ran)
          (check_with-AllProvided p.circuit_breaker p.retry_manager
            (record p { metrics = record_health_check "start" p.metrics }, w) h)
  ]

-- WatchConfig leaves the cache as it is.
watch_config-cache :
    (namespace : Text) (p : PlugApollo) → (watch_config namespace p).0.config_cache ≡ p.config_cache
unfolding watch_config finish_watch begin_watch commit_watch start_in
watch_config-cache namespace p = ground arith

module _ {W : Type 0} ⦃reg : Registry W⦄ ⦃f : Framework W⦄ (x : Externals) where
  load-cache :
      (p : PlugApollo) (w : W) → (initialize_resources x (p, w)).0.0.config_cache ≡ p.config_cache
  unfolding initialize_resources validate_plugin_config init_components
  load-cache p w = ground arith

  start-cache : (p : PlugApollo) (w : W) → (startup x (p, w)).0.0.config_cache ≡ p.config_cache
  unfolding startup start_with roll_back
  start-cache p w = ground arith

  -- A cleanup empties the cache, or does nothing.
  stop-cache :
      (p : PlugApollo) (w : W)
      → ((cleanup (p, w)).0.0.config_cache ≡ p.config_cache)
        ⊎ ((cleanup (p, w)).0.0.config_cache ≡ [])
  unfolding cleanup tear_down
  stop-cache p w = elim (Bool-cases p.initialized) [
    | inr off ↦ inl (ground arith)
    | inl on ↦ elim (Bool-cases p.destroyed) [
      | inl gone ↦ inl (ground arith)
      | inr alive ↦ inr (ground arith)
    ]
  ]

module _ {W : Type 0} ⦃http : Http W⦄ ⦃m : Machine W⦄ ⦃reg : Registry W⦄ ⦃f : Framework W⦄
    (x : Externals) where
  abbrev Clean : PlugApollo × W → Type 0
  Clean s = AllProvided http s.0.config_cache

  apply-Clean : (e : Event) (s : PlugApollo × W) → Clean s → Clean (apply x e s)
  apply-Clean load (p, w) h = subst (AllProvided http) (sym (load-cache x p w)) h
  apply-Clean start (p, w) h = subst (AllProvided http) (sym (start-cache x p w)) h
  apply-Clean stop (p, w) h = elim (stop-cache x p w) [
    | inl same ↦ subst (AllProvided http) (sym same) h
    | inr empty ↦
        subst (AllProvided http) (sym empty)
          (λ k value found. absurd (unfold lookup in ground arith))
  ]
  apply-Clean check (p, w) h = check_health-AllProvided p w h
  apply-Clean (read namespace key) (p, w) h = get_config_value-AllProvided namespace key p w h
  apply-Clean (watch namespace) (p, w) h =
      subst (AllProvided http) (sym (watch_config-cache namespace p)) h
  apply-Clean (deliver namespace kvs) (p, w) h = changes-AllProvided http namespace kvs p h

  run-Clean : (es : List Event) (s : PlugApollo × W) → Clean s → Clean (run x es s)
  run-Clean [] s h = h
  run-Clean (e ∷ es) s h = run-Clean es (apply x e s) (apply-Clean e s h)

  -- After any sequence of InitializeResources, startups, cleanups, reads, health checks, calls of
  -- WatchConfig and deliveries, a value that GetConfigValue returns stood in a response that was decoded
  -- from the body of an answer with the status 200 to a request of a namespace's values, under a key that
  -- shares the entry of the cache with the namespace and key of the call.
  pub values_are_fetched :
      (es : List Event) (w : W) (namespace key value : Text)
      → (get_config_value namespace key (run x es (new_apollo_config_center, w))).1
        ≡ Result.ok value
      → Provided http (cache_key namespace key) value
  values_are_fetched es w namespace key value got =
      let s = run x es (new_apollo_config_center, w) in
      let out = get_config_value namespace key s in
      elim (get_config_value_source namespace key value s.0 out.0.0 s.1 out.0.1 (ground arith)) [
        | inl cached ↦
            run-Clean es (new_apollo_config_center, w)
              (unfold new_apollo_config_center lookup in λ k v found. absurd (ground arith))
              (cache_key namespace key) value cached
        | inr fetched ↦ (namespace, key, refl, fetched)
      ]

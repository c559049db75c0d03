-- ===== src/Plugin/Values.antt =====
-- config.go, `GetConfigValue`: a value through the cache, the breaker and the retries.
use lynx_apollo.Base.{
  Text, codes, literal, text_eq, Bool, false, List, [], ◌∷◌, ◌++◌, Option, none, some,
  if◌then◌else◌,
}
use lynx_apollo.Conf.{Apollo}
use lynx_apollo.Errors.{GoError, plain, new_init_error, wrap_client_error, config_get_failed}
use lynx_apollo.Metrics.{record_config_operation, record_cache_hit, record_cache_miss}
use lynx_apollo.Client.State.{Client, Http, Result}
use lynx_apollo.Client.Requests.{get_config_value as fetch_value, lookup}
use lynx_apollo.Resilience.Machine.{Machine}
use lynx_apollo.Resilience.Breaker.{CircuitBreaker}
use lynx_apollo.Resilience.Breaker.Guard.{guarded}
use lynx_apollo.Resilience.Retry.{RetryManager, do_with_retry}
use lynx_apollo.Plugin.State.{PlugApollo, check_initialized, get_namespace}

unfoldable pub cache_key : Text → Text → Text
cache_key namespace key = namespace ++ (codes ":" ++ key)

-- A map's assignment.
unfoldable pub put : {A : Type 0} → Text → A → List (Text × A) → List (Text × A)
put k v [] = (k, v) ∷ []
put k v ((j, w) ∷ m) = if text_eq j k then (k, v) ∷ m else (j, w) ∷ put k v m

caches : Option Apollo → Bool
caches none = false
caches (some c) = c.enable_cache

-- p.conf.EnableCache. Where this is read the plugin is initialized, and then its configuration is not
-- nil (Calls); on nil the code would panic.
unfoldable pub cache_enabled : PlugApollo → Bool
unfolding caches
cache_enabled p = caches p.conf

abbrev pub no_client : GoError
no_client = plain (literal "Apollo client not initialized")

abbrev pub no_components : GoError
no_components = new_init_error (literal "Apollo resilience components are not initialized")

module _ {W : Type 0} ⦃http : Http W⦄ where
  -- What a read does with the answer to its request.
  unfoldable pub store_value :
      Text → Text → (Client × W) × Result Text → PlugApollo → (PlugApollo × W) × Result Text
  store_value namespace key ((c, w), Result.err e) p =
      ((record p { client = some c }, w), Result.err e)
  store_value namespace key ((c, w), Result.ok v) p = (
    (
      record p {
        client = some c;
        config_cache =
            if cache_enabled p
            then put (cache_key namespace key) v p.config_cache
            else p.config_cache;
      },
      w,
    ),
    Result.ok v,
  )

  -- The request, after a miss or with the cache turned off.
  read_through : Client → Text → Text → PlugApollo × W → (PlugApollo × W) × Result Text
  unfolding store_value
  read_through c namespace key (p, w) =
      store_value namespace key (fetch_value namespace key (c, w)) p

  read_cached : Client → Text → Text → PlugApollo × W → (PlugApollo × W) × Result Text
  unfolding read_through
  read_cached c namespace key (p, w) = elim (lookup (cache_key namespace key) p.config_cache) [
    | some value ↦
        ((record p { metrics = record_cache_hit (get_namespace p) p.metrics }, w), Result.ok value)
    | none ↦
        read_through c namespace key
          (record p { metrics = record_cache_miss (get_namespace p) p.metrics }, w)
  ]

  -- getConfigValueFromApollo
  unfoldable pub get_config_value_from_apollo :
      Text → Text → PlugApollo × W → (PlugApollo × W) × Result Text
  unfolding read_cached
  get_config_value_from_apollo namespace key (p, w) = elim p.client [
    | none ↦ ((p, w), Result.err no_client)
    | some c ↦
        if cache_enabled p
        then read_cached c namespace key (p, w)
        else read_through c namespace key (p, w)
  ]

-- The variables of a GetConfigValue call, with all that its attempts change.
pub record Call (W : Type 0) : Type 0 where
  pub plugin : PlugApollo
  pub world : W
  pub value : Text
  pub last_err : Option GoError

module _ {W : Type 0} ⦃m : Machine W⦄ where
  -- The clock and the sleeps act on the world of a call.
  instance abbrev pub call_machine : Machine (Call W)
  call_machine = record {
    time = λ c. m.time c.world;
    read = λ c. (record c { world = (m.read c.world).0 }, (m.read c.world).1);
    sleep = λ d c. record c { world = m.sleep d c.world };
    out_of_range = m.out_of_range;
    time-le-read = λ c. m.time-le-read c.world;
    read-le-time = λ c. m.read-le-time c.world;
    time-sleep = λ d c. m.time-sleep d c.world;
  }

module _ {S : Type 0} ⦃m : Machine S⦄ where
  -- So they do on a state beside a breaker.
  instance abbrev pub breaker_machine : Machine (S × CircuitBreaker)
  breaker_machine = record {
    time = λ s. m.time s.0;
    read = λ s. (((m.read s.0).0, s.1), (m.read s.0).1);
    sleep = λ d s. (m.sleep d s.0, s.1);
    out_of_range = m.out_of_range;
    time-le-read = λ s. m.time-le-read s.0;
    read-le-time = λ s. m.read-le-time s.0;
    time-sleep = λ d s. m.time-sleep d s.0;
  }

module _ {W : Type 0} ⦃http : Http W⦄ where
  abbrev pub settle_call : Call W → (PlugApollo × W) × Result Text → Call W × Option GoError
  settle_call c ((p, w), Result.ok v) = (record c { plugin = p; world = w; value = v }, none)
  settle_call c ((p, w), Result.err e) =
      (record c { plugin = p; world = w; last_err = some e }, some e)

  -- The function that GetConfigValue hands to the breaker.
  unfoldable pub attempt_read : Text → Text → Call W → Call W × Option GoError
  attempt_read namespace key c =
      settle_call c (get_config_value_from_apollo namespace key (c.plugin, c.world))

  abbrev pub new_call : PlugApollo → W → Call W
  new_call p w = record { plugin = p; world = w; value = []; last_err = none }

  -- What GetConfigValue does after its last attempt.
  unfoldable pub finish :
      Text → (Call W × CircuitBreaker) × Option GoError → (PlugApollo × W) × Result Text
  finish namespace ((c, cb), none) = (
    (
      record c.plugin {
        circuit_breaker = some cb;
        metrics = record_config_operation namespace "get" "success" c.plugin.metrics;
      },
      c.world,
    ),
    Result.ok c.value,
  )
  finish namespace ((c, cb), some e) = (
    (
      record c.plugin {
        circuit_breaker = some cb;
        metrics = record_config_operation namespace "get" "error" c.plugin.metrics;
      },
      c.world,
    ),
    Result.err
        (wrap_client_error c.last_err config_get_failed (literal "failed to get config value")),
  )

  module _ ⦃m : Machine W⦄ where
    -- The attempts, each behind the breaker.
    unfoldable pub attempts :
        RetryManager
        → CircuitBreaker
        → Text
        → Text
        → PlugApollo × W
        → (Call W × CircuitBreaker) × Option GoError
    unfolding attempt_read
    attempts r cb namespace key (p, w) =
        do_with_retry r (guarded (attempt_read namespace key)) (new_call p w, cb)

    unfoldable pub with_components :
        Option CircuitBreaker
        → Option RetryManager
        → Text
        → Text
        → PlugApollo × W
        → (PlugApollo × W) × Result Text
    unfolding attempts finish
    with_components (some cb) (some r) namespace key s =
        finish namespace (attempts r cb namespace key s)
    with_components _ _ namespace key s = (s, Result.err no_components)

    -- GetConfigValue
    unfoldable pub get_config_value : Text → Text → PlugApollo × W → (PlugApollo × W) × Result Text
    unfolding with_components
    get_config_value namespace key (p, w) = elim (check_initialized p) [
      | some e ↦ ((p, w), Result.err e)
      | none ↦
          with_components p.circuit_breaker p.retry_manager namespace key
            (record p { metrics = record_config_operation namespace "get" "start" p.metrics }, w)
    ]

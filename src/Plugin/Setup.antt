-- ===== src/Plugin/Setup.antt =====
-- apollo.go, `InitializeResources`: loading the configuration and building the components. The calls of
-- the framework are parameters; none of them changes the plugin.
use lynx_apollo.Base.{
  ℕ, Text, literal, is_empty, true, false, List, [], ◌∷◌, Option, none, some, if◌then◌else◌, ℤ, pos,
  pos_part, ltb_ℤ, Float, frac, ltb_float,
}
use lynx_apollo.Conf.{
  Duration, Apollo, default_cluster, default_namespace, default_cache_dir, default_max_retry_times,
  default_retry_interval, default_circuit_breaker_threshold, get_default_timeout,
  get_default_notification_timeout,
}
use lynx_apollo.Errors.{GoError, new_config_error, wrap_init_error}
use lynx_apollo.Metrics.{Metrics, Registry, new_apollo_metrics}
use lynx_apollo.Validator.Result.{Externals, ValidationError, ValidationResult, error_message}
use lynx_apollo.Validator.Checks.{apply_implicit_defaults, validate}
use lynx_apollo.Resilience.Breaker.{new_circuit_breaker}
use lynx_apollo.Resilience.Retry.{RetryManager, new_retry_manager}
use lynx_apollo.Plugin.State.{PlugApollo}

-- The framework as the plugin calls it: the base plugin, the configuration, the control plane, the
-- runtime's resources, the plugin manager, and the error of the caller's context. `scan` returns what
-- it has filled in, also when it fails; the errors of `register_private` are only logged.
pub record Framework (W : Type 0) : Type 0 where
  pub base_initialize : W → W × Option GoError
  pub scan : W → (W × Apollo) × Option GoError
  pub ctx_err : W → Option GoError
  pub set_control_plane : W → W × Option GoError
  pub init_control_plane_config : W → W × Option GoError
  pub register_control_plane : W → W × Option GoError
  pub register_private : Text → W → W
  pub load_plugins : W → W × Option GoError

or_default : Option Duration → Duration → Option Duration
or_default none d = some d
or_default (some t) d = some t

-- setDefaultConfig. The test of the threshold is the one of the validator.
unfoldable pub set_default_config : Apollo → Apollo
unfolding or_default apply_implicit_defaults
set_default_config c = apply_implicit_defaults (record c {
  cluster = if is_empty c.cluster then default_cluster else c.cluster;
  namespace = if is_empty c.namespace then default_namespace else c.namespace;
  timeout = or_default c.timeout get_default_timeout;
  notification_timeout = or_default c.notification_timeout get_default_notification_timeout;
  cache_dir = if is_empty c.cache_dir then default_cache_dir else c.cache_dir;
})

-- result.Errors[0].Error(). An invalid result has an error.
first_message : Externals → List ValidationError → Text
first_message x [] = []
first_message x (e ∷ es) = error_message x e

refusal : Externals → ValidationResult → Option GoError
unfolding first_message
refusal x r = if r.is_valid then none else some (new_config_error (first_message x r.errors))

-- validateConfig
unfoldable pub validate_plugin_config : Externals → PlugApollo → PlugApollo × Option GoError
unfolding refusal first_message
validate_plugin_config x p = elim p.conf [
  | none ↦ (p, some (new_config_error (literal "configuration is required")))
  | some c ↦ (record p { conf = (validate x (some c)).0 }, refusal x (validate x (some c)).1)
]

unfoldable pub configured_retries : Apollo → ℤ
configured_retries c =
    if ltb_ℤ (pos 0) c.max_retry_times then c.max_retry_times else pos default_max_retry_times

unfoldable pub interval_of : Externals → Option Duration → ℕ
interval_of x none = default_retry_interval
interval_of x (some d) =
    if ltb_ℤ (pos 0) (x.as_duration d) then pos_part (x.as_duration d) else default_retry_interval

unfoldable pub configured_threshold : Apollo → Float
configured_threshold c =
    if ltb_float (frac (pos 0) 1) c.circuit_breaker_threshold
    then c.circuit_breaker_threshold
    else default_circuit_breaker_threshold

unfoldable pub retry_manager_for : Externals → Option Apollo → RetryManager
unfolding configured_retries interval_of
retry_manager_for x none = new_retry_manager (pos default_max_retry_times) default_retry_interval
retry_manager_for x (some c) =
    new_retry_manager (configured_retries c) (interval_of x c.retry_interval)

unfoldable pub threshold_for : Option Apollo → Float
unfolding configured_threshold
threshold_for none = default_circuit_breaker_threshold
threshold_for (some c) = configured_threshold c

-- How a method ends.
pub data Ending : Type 0 where
  returned : Option GoError → Ending
  panicked : Ending

-- initComponents, with the metrics made
unfoldable pub with_metrics : Externals → PlugApollo → Option Metrics → PlugApollo × Ending
unfolding retry_manager_for threshold_for
with_metrics x p none = (p, panicked)
with_metrics x p (some made) = (
  record p {
    metrics = some made;
    retry_manager = some (retry_manager_for x p.conf);
    circuit_breaker = some (new_circuit_breaker (threshold_for p.conf));
  },
  returned none,
)

module _ {W : Type 0} ⦃reg : Registry W⦄ (x : Externals) where
  -- initComponents. It returns no error, but NewApolloMetrics may panic.
  unfoldable pub init_components : PlugApollo × W → (PlugApollo × W) × Ending
  unfolding with_metrics
  init_components (p, w) =
      let made = new_apollo_metrics w in
      let out = with_metrics x p made.1 in ((out.0, made.0), out.1)

  -- The end of InitializeResources, after validateConfig.
  build : PlugApollo × Option GoError → W → (PlugApollo × W) × Ending
  unfolding init_components
  build (p, none) w = init_components (p, w)
  build (p, some e) w = (
    (p, w),
    returned (some (wrap_init_error (some e) (literal "configuration validation failed"))),
  )

  load_config : PlugApollo → (W × Apollo) × Option GoError → (PlugApollo × W) × Ending
  unfolding set_default_config validate_plugin_config build
  load_config p ((w, c), some e) = (
    (record p { conf = some c }, w),
    returned (some (wrap_init_error (some e) (literal "failed to scan apollo configuration"))),
  )
  load_config p ((w, c), none) =
      build (validate_plugin_config x (record p { conf = some (set_default_config c) })) w

  module _ ⦃f : Framework W⦄ where
    after_base : PlugApollo → W × Option GoError → (PlugApollo × W) × Ending
    unfolding load_config
    after_base p (w, some e) = ((p, w), returned (some e))
    after_base p (w, none) =
        load_config (record p { has_runtime = true; destroyed = false }) (f.scan w)

    -- InitializeResources
    unfoldable pub initialize_resources : PlugApollo × W → (PlugApollo × W) × Ending
    unfolding after_base
    initialize_resources (p, w) = after_base p (f.base_initialize w)

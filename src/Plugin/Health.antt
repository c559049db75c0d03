-- ===== src/Plugin/Health.antt =====
-- health.go: the health check, which reads one key through GetConfigValue.
pub mod Verdict
use lynx_apollo.Base.{
  Text, codes, literal, contains, is_empty, Bool, ◌||◌, ◌++◌, Option, none, some, if◌then◌else◌,
}
use lynx_apollo.Conf.{Apollo, default_namespace}
use lynx_apollo.Errors.{
  GoError, plain, error_text, new_init_error, new_health_check_error, wrap_client_error,
  health_check_failed,
}
use lynx_apollo.Metrics.{record_health_check}
use lynx_apollo.Client.State.{Http, Result}
use lynx_apollo.Resilience.Machine.{Machine}
use lynx_apollo.Resilience.Breaker.{CircuitBreaker}
use lynx_apollo.Resilience.Retry.{RetryManager, do_with_retry}
use lynx_apollo.Plugin.State.{PlugApollo, check_initialized}
use lynx_apollo.Plugin.Values.{get_config_value}

abbrev pub health_key : Text
health_key = codes "health.check.key"

-- p.conf.Namespace, or the default for an empty one. Where this is read the plugin is initialized, and
-- then its configuration is not nil (Calls); on nil the code would panic.
unfoldable pub test_namespace : Option Apollo → Text
test_namespace none = default_namespace
test_namespace (some c) = if is_empty c.namespace then default_namespace else c.namespace

-- The text of the error says that the key is not there.
unfoldable pub says_missing : GoError → Bool
says_missing e =
    contains (error_text e) (codes "not found") || contains (error_text e) (codes "not exist")

abbrev pub connection_failed_error : GoError → GoError
connection_failed_error e = plain (literal "client connection test failed: " ++ error_text e)

-- checkConfigManagementHealth. The map of the watchers is made with the plugin, and every teardown
-- makes a new one: it is never nil, and its size does not matter.
unfoldable pub check_config_management_health : PlugApollo → Option GoError
check_config_management_health p = none

-- What checkApolloHealth and its attempts share.
pub record Check (W : Type 0) : Type 0 where
  pub plugin : PlugApollo
  pub world : W
  pub health_err : Option GoError

abbrev pub new_check : {W : Type 0} → PlugApollo → W → Check W
new_check p w = record { plugin = p; world = w; health_err = none }

module _ {W : Type 0} ⦃m : Machine W⦄ where
  instance abbrev pub check_machine : Machine (Check W)
  check_machine = record {
    time = λ c. m.time c.world;
    read = λ c. (record c { world = (m.read c.world).0 }, (m.read c.world).1);
    sleep = λ d c. record c { world = m.sleep d c.world };
    out_of_range = m.out_of_range;
    time-le-read = λ c. m.time-le-read c.world;
    read-le-time = λ c. m.read-le-time c.world;
    time-sleep = λ d c. m.time-sleep d c.world;
  }

module _ {W : Type 0} where
  -- An error that says that the key is missing is none.
  unfoldable pub judge : (PlugApollo × W) × Result Text → (PlugApollo × W) × Option GoError
  judge (s, Result.ok v) = (s, none)
  judge (s, Result.err e) = (s, if says_missing e then none else some (connection_failed_error e))

  abbrev pub settle_check : Check W → (PlugApollo × W) × Option GoError → Check W × Option GoError
  settle_check c ((p, w), some e) =
      (record c { plugin = p; world = w; health_err = some e }, some e)
  settle_check c ((p, w), none) = elim (check_config_management_health p) [
    | some e ↦ (record c { plugin = p; world = w; health_err = some e }, some e)
    | none ↦ (record c { plugin = p; world = w }, none)
  ]

  -- What checkApolloHealth does after its last attempt.
  unfoldable pub finish_check : Check W × Option GoError → (PlugApollo × W) × Option GoError
  finish_check (c, none) = (
    (record c.plugin { metrics = record_health_check "success" c.plugin.metrics }, c.world),
    none,
  )
  finish_check (c, some e) = (
    (record c.plugin { metrics = record_health_check "error" c.plugin.metrics }, c.world),
    some (
        wrap_client_error c.health_err health_check_failed
          (literal "Apollo configuration center health check failed")),
  )

abbrev pub no_resilience : GoError
no_resilience = new_health_check_error (literal "Apollo resilience components are not initialized")

abbrev pub client_is_nil : GoError
client_is_nil = new_init_error (literal "Apollo client is nil")

module _ {W : Type 0} ⦃http : Http W⦄ ⦃m : Machine W⦄ where
  unfoldable pub check_client_connection : PlugApollo × W → (PlugApollo × W) × Option GoError
  unfolding judge
  check_client_connection (p, w) =
      judge (get_config_value (test_namespace p.conf) health_key (p, w))

  -- The function that checkApolloHealth hands to the retries.
  unfoldable pub attempt_check : Check W → Check W × Option GoError
  attempt_check c = settle_check c (check_client_connection (c.plugin, c.world))

  unfoldable pub check_with :
      Option CircuitBreaker
      → Option RetryManager
      → PlugApollo × W
      → (PlugApollo × W) × Option GoError
  unfolding finish_check
  check_with (some cb) (some r) (p, w) =
      finish_check (do_with_retry r attempt_check (new_check p w))
  check_with _ _ s = (s, some no_resilience)

  unfoldable pub check_apollo_health : PlugApollo × W → (PlugApollo × W) × Option GoError
  unfolding check_with
  check_apollo_health (p, w) =
      check_with p.circuit_breaker p.retry_manager
        (record p { metrics = record_health_check "start" p.metrics }, w)

  -- CheckHealth
  unfoldable pub check_health : PlugApollo × W → (PlugApollo × W) × Option GoError
  unfolding check_apollo_health
  check_health (p, w) = elim (check_initialized p) [
    | some e ↦ ((p, w), some e)
    | none ↦ elim p.client [
      | none ↦ ((p, w), some client_is_nil)
      | some c ↦ check_apollo_health (p, w)
    ]
  ]

-- ===== src/Tests/Calls.antt =====
-- Loading, starting and sequences of calls at concrete inputs.
use lynx_apollo.Base.{
  List, [], ◌∷◌, ◌≡◌, ◌≢◌, refl, literal, true, false, [], ◌∷◌, none, some, text_eq, member, codes,
  trim_space, pos, second, ◌*◌,
}
use lynx_apollo.Metrics.{
  record_client_operation, new_apollo_metrics, register_collectors, collectors,
}
use lynx_apollo.Conf.{Apollo, supported_log_levels}
use lynx_apollo.Client.State.{Client, new_client, ok}
use lynx_apollo.Client.Requests.{
  get_config, fetch_config, get_config_value as fetch_value, get_config_server, lookup,
}
use lynx_apollo.Client.Servers.{http_prefix, https_prefix, parse_servers}
use lynx_apollo.Resilience.Breaker.{before_attempt, record_success, new_circuit_breaker}
use lynx_apollo.Resilience.Breaker.Guard.{guarded}
use lynx_apollo.Resilience.Retry.{do_with_retry, retry_loop, rounds, new_retry_manager}
use lynx_apollo.Plugin.Values.{
  cache_key, put, cache_enabled, get_config_value_from_apollo, get_config_value, with_components,
  finish, attempts, attempt_read,
}
use lynx_apollo.Plugin.Provenance.{Provided}
use lynx_apollo.Plugin.Provenance.History.{values_are_fetched}
use lynx_apollo.Plugin.FirstRead.{loaded_plugin_reads}
use lynx_apollo.Tests.Client.{served}
use lynx_apollo.Validator.Result.{whole_seconds, new_validation_result}
use lynx_apollo.Validator.Rules.{Passes}
use lynx_apollo.Plugin.State.{PlugApollo, new_apollo_config_center, check_initialized}
use lynx_apollo.Validator.Checks.{
  validate, validate_network_configs, apply_implicit_defaults, validate_security_configs,
  validate_dependencies, validate_time_configs, validate_enum_values, validate_numeric_ranges,
  validate_basic_fields, matches_app_id, all_app_id_bytes, is_app_id_byte, check_merge_strategy,
  check_network_timeout, check_seconds, check_timeout_order,
}
use lynx_apollo.Plugin.Setup.{
  Ending, returned, panicked, initialize_resources, with_metrics, set_default_config,
  validate_plugin_config, init_components,
}
use lynx_apollo.Plugin.Startup.{startup}
use lynx_apollo.Plugin.Life.{HasComponents, initialize_succeeds, load_and_start}
use lynx_apollo.Tests.Process.{
  Process, blank, process_http, process_machine, process_registry, process_framework,
}
use lynx_apollo.Tests.Validator.{lenient}
use lynx_apollo.Plugin.Calls.{Event, load, start, read, run, run_new-Safe}
use lynx_apollo.Plugin.Reload.{second_load_fails}

-- Opens all that loading computes with.
load_from : PlugApollo × Process → (PlugApollo × Process) × Ending
unfolding initialize_resources new_apollo_config_center set_default_config validate_plugin_config
    init_components with_metrics new_apollo_metrics register_collectors collectors validate
    validate_network_configs apply_implicit_defaults validate_security_configs text_eq literal
    validate_dependencies whole_seconds validate_time_configs validate_enum_values member
    supported_log_levels validate_numeric_ranges validate_basic_fields matches_app_id
    all_app_id_bytes is_app_id_byte new_validation_result check_merge_strategy check_network_timeout
    check_seconds check_timeout_order
load_from s = initialize_resources lenient s

abbrev fresh : PlugApollo × Process
fresh = (new_apollo_config_center, blank)

all_loaded : (initialize_resources lenient fresh).1 ≡ returned none
unfolding load_from
all_loaded = refl

-- The collectors are registered already.
second_load : (initialize_resources lenient (initialize_resources lenient fresh).0).1 ≡ panicked
unfolding load_from
second_load = refl

started_up : (startup lenient (initialize_resources lenient fresh).0).1 ≡ none
unfolding load_from startup
started_up = refl

initialize_succeeds_example :
    let q = (initialize_resources lenient fresh).0.0 in
    ((c : Apollo) × (q.conf ≡ some c) × Passes lenient c) × HasComponents q × (q.destroyed ≡ false)
initialize_succeeds_example = initialize_succeeds lenient new_apollo_config_center blank all_loaded

load_and_start_test :
    let q = (initialize_resources lenient fresh).0.0 in
    let s = (startup lenient (q, (initialize_resources lenient fresh).0.1)).0.0 in
    (check_initialized s ≡ none) × HasComponents s × (s.client ≢ none)
load_and_start_test =
    load_and_start lenient new_apollo_config_center blank (initialize_resources lenient fresh).0.1
      all_loaded started_up

second_load_fails_example :
    (initialize_resources lenient (initialize_resources lenient fresh).0).1 ≢ returned none
second_load_fails_example =
    second_load_fails lenient new_apollo_config_center (initialize_resources lenient fresh).0.0
      blank (initialize_resources lenient fresh).0.1 (λ w h. (h, h)) all_loaded (λ h. h)

abbrev first_calls : List Event
first_calls = load ∷ start ∷ load ∷ []

is_up : (run lenient first_calls fresh).0.initialized ≡ true
unfolding load_from startup record_client_operation
is_up = refl

run_new-Safe_example :
    let p = (run lenient first_calls fresh).0 in (p.conf ≢ none) × (p.client ≢ none)
run_new-Safe_example = run_new-Safe lenient first_calls blank is_up

-- The plugin after its first load and start.
abbrev up : PlugApollo × Process
up = run lenient (load ∷ start ∷ []) fresh

abbrev sample_client : Client
sample_client =
    new_client (codes "https://meta") (codes "demo-app") (codes "default") (codes "application") []
      (pos (10 * second))

up_client : up.0.client ≡ some sample_client
unfolding load_from startup new_client
up_client = refl

answered : (get_config (codes "application") (sample_client, up.1)).1 ≡ ok served
unfolding get_config get_config_server parse_servers http_prefix https_prefix new_client
answered = refl

loaded_plugin_reads_example :
    (get_config_value (codes "application") (codes "color") up).1 ≡ ok (codes "blue")
unfolding new_apollo_config_center lookup
loaded_plugin_reads_example =
    loaded_plugin_reads lenient new_apollo_config_center blank
      (initialize_resources lenient fresh).0.1 up.1 sample_client (codes "application")
      (codes "color") (codes "blue") served all_loaded started_up refl up_client answered refl

-- A second read, which the cache answers.
second_read :
    (get_config_value
      (codes "application")
      (codes "color")
      (run lenient (load ∷ start ∷ read (codes "application") (codes "color") ∷ []) fresh)).1
    ≡ ok (codes "blue")
unfolding load_from startup get_config_value with_components finish attempts attempt_read
    do_with_retry guarded before_attempt record_success rounds retry_loop check_initialized
    get_config_value_from_apollo cache_enabled cache_key new_retry_manager new_circuit_breaker
    get_config fetch_config put get_config_server new_client parse_servers http_prefix https_prefix
    trim_space lookup fetch_value
second_read = refl

values_are_fetched_example :
    Provided process_http (cache_key (codes "application") (codes "color")) (codes "blue")
values_are_fetched_example =
    values_are_fetched lenient (load ∷ start ∷ read (codes "application") (codes "color") ∷ [])
      blank (codes "application") (codes "color") (codes "blue") second_read

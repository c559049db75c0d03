-- ===== src/Tests/Plugin.antt =====
-- The plugin at concrete inputs. The world is a clock that each request moves on by one nanosecond.
use lynx_apollo.Base.{
  map, ◌||◌, ℕ, zero, suc, ◌*◌, ◌≡◌, ◌↔◌, refl, codes, literal, true, [], ◌∷◌, ◌++◌, none, some,
  arith, pos, second, frac, trim_space, ap,
}
use lynx_apollo.Conf.{Apollo}
use lynx_apollo.Errors.{plain, wrap_client_error, config_get_failed}
use lynx_apollo.Metrics.{record_client_operation}
use lynx_apollo.Client.State.{Client, new_client, ok, err}
use lynx_apollo.Client.Requests.{
  lookup, get_config, get_config_value as fetch_value, get_config_server, fetch_config, close,
}
use lynx_apollo.Client.Servers.{parse_servers, http_prefix, https_prefix}
use lynx_apollo.Resilience.Machine.{plain_clock}
use lynx_apollo.Resilience.Breaker.{
  before_attempt, record_success, CircuitBreaker, opened, new_circuit_breaker,
}
use lynx_apollo.Resilience.Breaker.Guard.{guarded}
use lynx_apollo.Resilience.Retry.{
  do_with_retry, retry_loop, RetryManager, rounds, calculate_backoff, pause_before_next,
}
use lynx_apollo.Plugin.State.{PlugApollo, new_apollo_config_center, check_initialized}
use lynx_apollo.Plugin.Values.{
  cache_key, cache_enabled, get_config_value_from_apollo, get_config_value, with_components, finish,
  attempts, attempt_read,
}
use lynx_apollo.Plugin.Cache.{NoColon, cache_key_injective, read_again}
use lynx_apollo.Plugin.Reads.{Sourced, get_config_value_source}
use lynx_apollo.Plugin.Reads.Rejected.{StaysOpen, rejected_read}
use lynx_apollo.Plugin.Setup.{Framework}
use lynx_apollo.Plugin.Startup.{startup, init_apollo_client, startup_phases}
use lynx_apollo.Plugin.Cleanup.{cleanup}
use lynx_apollo.Plugin.Watching.{plugin_watcher, stop_config_watcher}
use lynx_apollo.Plugin.Phases.{
  IsDown, started, Starts, startup_fails, startup_iff, startup_succeeds, cleanup_releases,
  cleanup_twice, failed_startup_closes, AllDone,
}
use lynx_apollo.Tests.Client.{demo_http, demo_client}
use lynx_apollo.Tests.Validator.{sample, lenient}

instance abbrev pub demo_framework : Framework ℕ
demo_framework = record {
  base_initialize = λ w. (w, none);
  scan = λ w. ((w, sample), none);
  ctx_err = λ w. none;
  set_control_plane = λ w. (w, none);
  init_control_plane_config = λ w. (w, none);
  register_control_plane = λ w. (w, none);
  register_private = λ n w. w;
  load_plugins = λ w. (w, none);
}

abbrev failing : Framework ℕ
failing = record demo_framework { load_plugins = λ w. (w, some (plain (literal "no plugin"))) }

abbrev pub three : RetryManager
three = record { max_retries = pos 3; retry_interval = 1 * second; backoff_factor = 2 }

abbrev pub loaded : PlugApollo
loaded = record new_apollo_config_center {
  conf = some sample;
  metrics = some [];
  retry_manager = some three;
  circuit_breaker = some (new_circuit_breaker (frac (pos 1) 2));
}

abbrev pub running : PlugApollo
running = record loaded { client = some demo_client; initialized = true }

abbrev tripped : CircuitBreaker
tripped = record {
  threshold = frac (pos 1) 2;
  failures = 5 ∷ [];
  successes = [];
  last_failure = 5;
  state = opened;
}

app_NoColon : NoColon (codes "app")
app_NoColon = ground arith

cache_key_injective_test : (codes "app" ≡ codes "app") × (codes "color" ≡ codes "color")
cache_key_injective_test =
    cache_key_injective (codes "app") (codes "app") (codes "color") (codes "color") app_NoColon
      app_NoColon refl

-- A colon in the namespace makes two entries share a key.
cache_key_collision : cache_key (codes "a:b") (codes "c") ≡ cache_key (codes "a") (codes "b:c")
unfolding cache_key
cache_key_collision = refl

stays : StaysOpen {W = ℕ} three tripped 4 5
unfolding pause_before_next calculate_backoff
stays zero h = omega arith
stays (suc zero) h = omega arith
stays (suc (suc zero)) h = omega arith
stays (suc (suc (suc zero))) h = omega arith
stays (suc (suc (suc (suc k)))) h = absurd (omega arith)

rejected_read_test :
    (get_config_value {W = ℕ}
      (codes "app")
      (codes "color")
      (record running { circuit_breaker = some tripped }, 5)).1
    ≡ err (wrap_client_error none config_get_failed (literal "failed to get config value"))
unfolding rounds check_initialized new_apollo_config_center
rejected_read_test =
    rejected_read (codes "app") (codes "color") (record running { circuit_breaker = some tripped })
      5 three tripped refl refl refl refl stays

startup_fails_example :
    IsDown (startup ⦃f = failing⦄ lenient (loaded, 0)).0.0
    × ((startup ⦃f = failing⦄ lenient (loaded, 0)).0.0.conf ≡ some sample)
unfolding startup new_apollo_config_center
startup_fails_example =
    startup_fails ⦃f = failing⦄ lenient loaded 0 (refl, refl) (λ e. ground arith)

-- The client that the startup builds.
abbrev built : Client
built =
    new_client (codes "https://meta") (codes "demo-app") (codes "default") (codes "application") []
      (pos (10 * second))

built_ok : init_apollo_client lenient sample ≡ ok built
unfolding init_apollo_client new_client
built_ok = refl

-- The plugins fail to load.
unfinished : ¬ AllDone ⦃f = failing⦄ (startup_phases ⦃f = failing⦄ (started loaded built)) 0
unfolding startup_phases new_apollo_config_center
unfinished done = ground arith

failed_startup_closes_example :
    let q = (startup ⦃f = failing⦄ lenient (loaded, 0)).0.0 in
    IsDown q × (q.closed_clients ≡ loaded.closed_clients ++ close built ∷ [])
unfolding new_apollo_config_center
failed_startup_closes_example =
    failed_startup_closes ⦃f = failing⦄ lenient loaded 0 sample built refl refl refl built_ok
      unfinished

startup_iff_example :
    ((startup {W = ℕ} lenient (loaded, 0)).1 ≡ none)
    ↔ ((c : Apollo) × (k : Client) × Starts {W = ℕ} lenient loaded 0 c k)
startup_iff_example = startup_iff lenient loaded 0

started_up : (startup {W = ℕ} lenient (loaded, 0)).1 ≡ none
unfolding startup new_apollo_config_center
started_up = refl

startup_succeeds_test :
    (c : Apollo) × (k : Client) × (loaded.conf ≡ some c)
    × (init_apollo_client lenient c ≡ ok k)
    × ((startup {W = ℕ} lenient (loaded, 0)).0.0 ≡ (
        let q = started loaded k in
        record q { metrics = record_client_operation "startup" "success" q.metrics }))
startup_succeeds_test = startup_succeeds lenient loaded 0 started_up

-- With one watcher.
abbrev watching : PlugApollo
watching = record running {
  config_watchers = (codes "app", plugin_watcher 0 (codes "app") running.client) ∷ [];
}

cleanup_releases_example :
    let q = (cleanup {W = ℕ} (watching, 0)).0.0 in
    IsDown q
    × (q.destroyed ≡ true)
    × (q.metrics ≡ none)
    × (q.retry_manager ≡ none)
    × (q.circuit_breaker ≡ none)
    × (q.config_cache ≡ [])
    × (q.config_watchers ≡ [])
    × (q.stopped_watchers
        ≡ watching.stopped_watchers ++ map (λ e. stop_config_watcher e.1) watching.config_watchers)
    × (q.closed_clients
        ≡ watching.closed_clients ++ elim watching.client [ none ↦ [] | some c ↦ close c ∷ [] ])
    × (q.channel_closed ≡ (watching.channel_closed || watching.has_channel))
    × (q.conf ≡ some sample)
    × ((cleanup {W = ℕ} (watching, 0)).0.1 ≡ 0)
    × (((cleanup {W = ℕ} (watching, 0)).1 ≡ none) ↔ (demo_framework.ctx_err 0 ≡ none))
unfolding new_apollo_config_center
cleanup_releases_example = cleanup_releases watching 0 refl refl

cleanup_twice_test :
    cleanup {W = ℕ} (cleanup {W = ℕ} (running, 0)).0 ≡ ((cleanup {W = ℕ} (running, 0)).0, none)
cleanup_twice_test = cleanup_twice (running, 0)

read_value :
    (get_config_value_from_apollo {W = ℕ} (codes "app") (codes "color") (running, 0)).1
    ≡ ok (codes "blue")
unfolding get_config_value_from_apollo cache_enabled new_apollo_config_center cache_key get_config
    fetch_config get_config_server parse_servers http_prefix https_prefix trim_space lookup
    fetch_value
read_value = refl

read_again_example :
    let out = get_config_value_from_apollo {W = ℕ} (codes "app") (codes "color") (running, 0) in
    let again = get_config_value_from_apollo {W = ℕ} (codes "app") (codes "color") (out.0.0, 9) in
    (again.1 ≡ ok (codes "blue"))
    × (again.0.1 ≡ 9)
    × (again.0.0.config_cache ≡ out.0.0.config_cache)
unfolding get_config_value_from_apollo cache_enabled new_apollo_config_center
read_again_example =
    read_again (codes "app") (codes "color") (codes "blue") running
      (get_config_value_from_apollo {W = ℕ} (codes "app") (codes "color") (running, 0)).0.0 0
      (get_config_value_from_apollo {W = ℕ} (codes "app") (codes "color") (running, 0)).0.1 9 refl
      (ap
        (λ r.
          ((get_config_value_from_apollo {W = ℕ} (codes "app") (codes "color") (running, 0)).0, r))
        read_value)

got_value :
    (get_config_value {W = ℕ} (codes "app") (codes "color") (running, 0)).1 ≡ ok (codes "blue")
unfolding get_config_value with_components finish attempts attempt_read do_with_retry guarded
    before_attempt record_success rounds retry_loop check_initialized get_config_value_from_apollo
    cache_enabled new_apollo_config_center cache_key new_circuit_breaker get_config fetch_config
    get_config_server parse_servers http_prefix https_prefix trim_space lookup fetch_value
got_value = refl

get_config_value_source_example : Sourced demo_http (codes "app") (codes "color") (codes "blue") []
unfolding new_apollo_config_center
get_config_value_source_example =
    get_config_value_source (codes "app") (codes "color") (codes "blue") running
      (get_config_value {W = ℕ} (codes "app") (codes "color") (running, 0)).0.0 0
      (get_config_value {W = ℕ} (codes "app") (codes "color") (running, 0)).0.1
      (ap (λ r. ((get_config_value {W = ℕ} (codes "app") (codes "color") (running, 0)).0, r))
        got_value)

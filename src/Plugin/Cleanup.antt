-- ===== src/Plugin/Cleanup.antt =====
-- cleanup.go and lifecycle_context.go: the teardown, in the order of its steps.
use lynx_apollo.Base.{
  literal, Bool, true, false, not, ◌&&◌, Text, List, [], ◌∷◌, ◌++◌, Option, none, some,
  if◌then◌else◌,
}
use lynx_apollo.Errors.{GoError, wrapped}
use lynx_apollo.Metrics.{record_client_operation}
use lynx_apollo.Resilience.Breaker.{CircuitBreaker, force_close}
use lynx_apollo.Plugin.State.{PlugApollo, ConfigWatcher, closed_of}
use lynx_apollo.Plugin.Watching.{stop_config_watcher}
use lynx_apollo.Plugin.Setup.{Framework}

-- stopHealthCheck; `sync.Once` closes the channel once, and never a second time.
unfoldable pub stop_health_check : PlugApollo → PlugApollo
stop_health_check p =
    if p.has_channel && not p.channel_closed
    then record p { channel_closed = true; has_channel = false }
    else p

-- What the loop over the watchers has stopped, each with its Stop.
unfoldable pub stop_all : List (Text × ConfigWatcher) → List ConfigWatcher
stop_all [] = []
stop_all ((key, w) ∷ ws) = stop_config_watcher w ∷ stop_all ws

-- cleanupWatchers stops each watcher of the map, and makes a new map.
unfoldable pub cleanup_watchers : PlugApollo → PlugApollo
cleanup_watchers p = record p {
  config_watchers = [];
  stopped_watchers = p.stopped_watchers ++ stop_all p.config_watchers;
}

-- closeClientConnection lets go of the client, and closes it.
unfoldable pub close_client_connection : PlugApollo → PlugApollo
close_client_connection p = record p {
  client = none;
  closed_clients = p.closed_clients ++ closed_of p.client;
}

unfoldable pub clear_config_cache : PlugApollo → PlugApollo
clear_config_cache p = record p { config_cache = [] }

-- releaseMemoryResources; the breaker is closed by force when nothing leads to it any more.
unfoldable pub release_memory_resources : PlugApollo → PlugApollo
unfolding clear_config_cache
release_memory_resources p =
    clear_config_cache (record p { metrics = none; retry_manager = none; circuit_breaker = none })

force_closed : Option CircuitBreaker → Option CircuitBreaker
force_closed none = none
force_closed (some cb) = some (force_close cb)

-- stopBackgroundTasks keeps the reference to the breaker.
unfoldable pub stop_background_tasks : PlugApollo → PlugApollo
unfolding force_closed
stop_background_tasks p = record p {
  retry_manager = none;
  metrics = none;
  circuit_breaker = force_closed p.circuit_breaker;
}

unfoldable pub clear_initialized : PlugApollo → PlugApollo
clear_initialized p = record p { initialized = false }

-- The steps between the test of the flags and the deferred metric.
unfoldable pub tear_down : PlugApollo → PlugApollo
unfolding stop_health_check cleanup_watchers close_client_connection release_memory_resources
    stop_background_tasks clear_initialized
tear_down p = clear_initialized (
    stop_background_tasks
      (release_memory_resources (close_client_connection (cleanup_watchers (stop_health_check p)))))

cleanup_error : Option GoError → Option GoError
cleanup_error none = none
cleanup_error (some e) = some (wrapped (literal "apollo cleanup canceled: ") e)

module _ {W : Type 0} ⦃f : Framework W⦄ where
  -- cleanupTasksContext
  unfoldable pub cleanup : PlugApollo × W → (PlugApollo × W) × Option GoError
  unfolding tear_down cleanup_error
  cleanup (p, w) =
      if not p.initialized
      then ((p, w), none)
      else if p.destroyed
      then ((p, w), none)
      else (let q = tear_down (record p {
        destroyed = true;
        metrics = record_client_operation "cleanup" "start" p.metrics;
      }) in
          (
            (record q { metrics = record_client_operation "cleanup" "success" q.metrics }, w),
            cleanup_error (f.ctx_err w),
          ))

-- getCleanupStats, but for the time
pub record CleanupStats : Type 0 where
  pub stat_initialized : Bool
  pub stat_destroyed : Bool
  pub client_closed : Bool
  pub metrics_cleared : Bool
  pub retry_cleared : Bool
  pub breaker_cleared : Bool

abbrev is_none : {A : Type 0} → Option A → Bool
is_none none = true
is_none (some a) = false

unfoldable pub get_cleanup_stats : PlugApollo → CleanupStats
get_cleanup_stats p = record {
  stat_initialized = p.initialized;
  stat_destroyed = p.destroyed;
  client_closed = is_none p.client;
  metrics_cleared = is_none p.metrics;
  retry_cleared = is_none p.retry_manager;
  breaker_cleared = is_none p.circuit_breaker;
}

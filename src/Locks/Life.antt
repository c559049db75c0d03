-- ===== src/Locks/Life.antt =====
-- cleanup.go, lifecycle_context.go and apollo.go: the locks of the cleanup, the startup and initComponents.
use lynx_apollo.Base.{ℕ, Bool, List, [], ◌∷◌, ◌++◌, if◌then◌else◌}
use lynx_apollo.Locks.{
  plugin_mu, cache_mutex, breaker_mu, watcher_mutex, close_once, client, metrics, retry_manager,
  circuit_breaker, health_check_ch, watchers_variable, watchers_map, cache_variable, breaker_state,
  exclusive, shared, Action, read, write, peek, poke,
}
use lynx_apollo.Locks.Code.{locked, each, close_client_code, Halting, stop_watcher_code}

-- A watcher in the map of the plugin, and what the cleanup finds when it stops it.
pub record Entry : Type 0 where
  pub watcher : ℕ
  pub stopping : Halting

abbrev pub stop_entry_code : Entry → List Action
stop_entry_code e = stop_watcher_code e.watcher e.stopping

-- What cleanupTasksContext finds. The reads of metrics stand outside of the lock.
pub record Cleaning : Type 0 where
  pub has_channel : Bool
  pub entries : List Entry
  pub has_client : Bool
  pub has_breaker : Bool

-- What ForceClose and ForceOpen of the breaker do.
abbrev pub force_close_code : List Action
force_close_code = locked exclusive breaker_mu (write breaker_state ∷ [])

abbrev stop_health_check_code : Bool → List Action
stop_health_check_code has_channel =
    locked exclusive plugin_mu (read health_check_ch ∷ [])
    ++ (if has_channel
        then locked exclusive close_once (locked exclusive plugin_mu (write health_check_ch ∷ []))
        else [])

abbrev pub cleanup_watchers_code : List Entry → List Action
cleanup_watchers_code entries = locked exclusive watcher_mutex (
    read watchers_variable ∷ read watchers_map ∷ each stop_entry_code entries
    ++ write watchers_variable ∷ [])

abbrev close_client_connection_code : Bool → List Action
close_client_connection_code has_client =
    locked exclusive plugin_mu (read client ∷ write client ∷ [])
    ++ (if has_client then close_client_code else [])

abbrev release_memory_code : Bool → List Action
release_memory_code has_breaker =
    locked exclusive plugin_mu (
      read metrics
      ∷ read retry_manager
      ∷ read circuit_breaker
      ∷ write metrics
      ∷ write retry_manager
      ∷ write circuit_breaker
      ∷ [])
    ++ (if has_breaker then force_close_code else [])
    ++ locked exclusive cache_mutex (write cache_variable ∷ [])

-- The breaker is nil by now, and not closed again.
abbrev stop_background_code : List Action
stop_background_code = locked exclusive plugin_mu (
    read retry_manager
    ∷ read circuit_breaker
    ∷ read metrics
    ∷ write retry_manager
    ∷ write metrics
    ∷ [])

unfoldable pub cleanup_code : Cleaning → List Action
cleanup_code c =
    peek metrics ∷ peek metrics ∷ stop_health_check_code c.has_channel
    ++ cleanup_watchers_code c.entries
    ++ close_client_connection_code c.has_client
    ++ release_memory_code c.has_breaker
    ++ stop_background_code
    ++ peek metrics ∷ []

abbrev pub cleanup_stats_code : List Action
cleanup_stats_code =
    locked shared plugin_mu
      (read client ∷ read metrics ∷ read retry_manager ∷ read circuit_breaker ∷ [])

-- How far startupTasksContext comes: it is refused, it has no client, or it goes on to the framework,
-- which does something (`setting`) when it sets the control plane and reads its configuration, and
-- then (`loading`) when it loads the plugins. In between the resources are published, if it comes to that.
pub data Launch : Type 0 where
  refused clientless : Launch
  goes : (setting : List Action) (published : Bool) (loading : List Action) (failed : Bool) → Launch

abbrev publish_resources_code : List Action
publish_resources_code =
    read client
    ∷ read client
    ∷ read metrics
    ∷ read metrics
    ∷ read retry_manager
    ∷ read retry_manager
    ∷ read circuit_breaker
    ∷ read circuit_breaker
    ∷ peek watchers_variable
    ∷ peek watchers_variable
    ∷ peek cache_variable
    ∷ peek cache_variable
    ∷ []

abbrev roll_back_code : List Action
roll_back_code = read client ∷ read client ∷ close_client_code ++ write client ∷ []

abbrev pub after_setting : Bool → List Action → Bool → List Action
after_setting published loading failed =
    (if published then publish_resources_code else [])
    ++ loading
    ++ (if failed then roll_back_code else [])
    ++ read metrics ∷ read metrics ∷ []

-- initComponents, where InitializeResources comes to it.
abbrev pub init_components_code : Bool → List Action
init_components_code reached =
    if reached then poke metrics ∷ poke retry_manager ∷ poke circuit_breaker ∷ [] else []

-- The lock of the plugin is held to the end.
unfoldable pub startup_code : Launch → List Action
startup_code refused = locked exclusive plugin_mu []
startup_code clientless =
    locked exclusive plugin_mu (read metrics ∷ read metrics ∷ read metrics ∷ read metrics ∷ [])
startup_code (goes setting published loading failed) =
    locked exclusive plugin_mu (
      read metrics ∷ read metrics ∷ write client ∷ setting
      ++ after_setting published loading failed)

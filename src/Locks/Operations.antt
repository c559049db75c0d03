-- ===== src/Locks/Operations.antt =====
-- The operations as threads: those that the framework and the users of the plugin call, and the
-- goroutines that they launch.
use lynx_apollo.Base.{ℕ, zero, suc, Bool, true, List, [], ◌∷◌, ◌++◌, if◌then◌else◌}
use lynx_apollo.Locks.{
  cache_mutex, breaker_mu, watcher_mutex, config_mu, dispatching, adapter_mu, looping,
  health_check_ch, watchers_variable, watchers_map, cache_variable, cache_map, breaker_state,
  on_change, on_error, watch_context, notification, Mode, exclusive, shared, Hold, Action, release,
  read, write, peek, Thread,
}
use lynx_apollo.Locks.Code.{
  locked, each, Lookup, get_config_server_code, read_client, get_metrics_code, Attempt,
  get_config_value_code, Round, check_health_code, start_adapter_code, stop_adapter_code, Starting,
  start_watcher_code, Halting, stop_watcher_code, unbacked,
}
use lynx_apollo.Locks.Life.{
  Cleaning, cleanup_code, cleanup_stats_code, init_components_code, force_close_code, goes,
  startup_code,
}

-- The ways through WatchConfig: the namespace is watched, another call was first, or a watcher is made.
pub data Watching : Type 0 where
  watched overtaken : Watching
  registers : Starting → Watching

abbrev look_for_watcher_code : Mode → List Action → List Action
look_for_watcher_code m more =
    locked m watcher_mutex (read watchers_variable ∷ read watchers_map ∷ more)

abbrev make_watcher_code : ℕ → List Action
make_watcher_code n =
    read_client
    ++ locked exclusive (config_mu n) (write (on_change n) ∷ [])
    ++ locked exclusive (config_mu n) (write (on_error n) ∷ [])

unfoldable pub watch_config_code : ℕ → Watching → List Action
watch_config_code n watched = get_metrics_code ++ look_for_watcher_code shared []
watch_config_code n overtaken =
    get_metrics_code
    ++ look_for_watcher_code shared []
    ++ make_watcher_code n
    ++ look_for_watcher_code exclusive []
    ++ stop_watcher_code n unbacked
watch_config_code n (registers s) =
    get_metrics_code
    ++ look_for_watcher_code shared []
    ++ make_watcher_code n
    ++ look_for_watcher_code exclusive (read watchers_variable ∷ write watchers_map ∷ [])
    ++ start_watcher_code n s

-- retryConfigWatch: without a channel it sleeps, with one it reads the field again to wait on it.
unfoldable pub retry_watch_code : Bool → ℕ → Watching → List Action
retry_watch_code channel n w =
    peek health_check_ch ∷ (if channel then peek health_check_ch ∷ [] else [])
    ++ watch_config_code n w

-- handleConfigChanged.
abbrev pub handle_change_code : List Action
handle_change_code =
    get_metrics_code ++ locked exclusive cache_mutex (read cache_variable ∷ write cache_map ∷ [])

-- A delivery of so many changes.
unfoldable pub changes_code : ℕ → List Action
changes_code zero = []
changes_code (suc k) = handle_change_code ++ changes_code k

abbrev pub deliver_code : ℕ → ℕ → List Action
deliver_code n k = locked shared (config_mu n) (read (on_change n) ∷ []) ++ changes_code k

-- The dispatch of the ConfigWatcher `n`: its deliveries, and whether it ends with a report.
unfoldable pub dispatch_loop_code : ℕ → List ℕ → Bool → List Action
dispatch_loop_code n deliveries reports =
    each (deliver_code n) deliveries
    ++ (if reports
        then locked shared (config_mu n) (read (on_error n) ∷ []) ++ get_metrics_code
        else [])

-- A poll: the lookup of its request, and those of the reloads that it leads to.
pub record Poll : Type 0 where
  pub lookup : Lookup
  pub reloads : List Lookup

abbrev pub reload_code : ℕ → Lookup → List Action
reload_code n l =
    locked exclusive (adapter_mu n) (write (notification n) ∷ []) ++ get_config_server_code l

unfoldable pub poll_code : ℕ → Poll → List Action
poll_code n p =
    locked shared (adapter_mu n) (read (watch_context n) ∷ read (notification n) ∷ [])
    ++ get_config_server_code p.lookup
    ++ each (reload_code n) p.reloads

-- GetConfigSources calls GetConfig for each of its namespaces.
abbrev get_config_sources_code : List ℕ → List Action
get_config_sources_code namespaces = each (λ n. read_client) namespaces

-- WatchControlPlaneConfig, where the framework begins the watcher or not, and where it ends with an error.
abbrev watch_control_plane_code : ℕ → Bool → Bool → List Action
watch_control_plane_code n begun ended =
    read_client
    ++ (if begun then start_adapter_code n else [])
    ++ (if ended then stop_adapter_code n true else [])

abbrev set_callback_code : ℕ → Bool → List Action
set_callback_code n changes =
    locked exclusive (config_mu n)
      (if changes then write (on_change n) ∷ [] else write (on_error n) ∷ [])

-- GetState, and GetFailureRate, which drops what has aged.
abbrev get_state_code : List Action
get_state_code = locked exclusive breaker_mu (read breaker_state ∷ [])

abbrev get_failure_rate_code : List Action
get_failure_rate_code =
    locked exclusive breaker_mu (read breaker_state ∷ write breaker_state ∷ read breaker_state ∷ [])

-- The operations, each with the way that it goes. The framework takes no lock of the plugin in the
-- startup that is listed here.
pub data Operation : Type 0 where
  gets_config gets_metrics gets_cleanup_stats : Operation
  gets_config_sources : (namespaces : List ℕ) → Operation
  gets_config_value : List Attempt → Operation
  checks_health : (has_client : Bool) → List Round → Operation
  watches_control_plane : ℕ → (begun ended : Bool) → Operation
  loads_source : Lookup → Operation
  watches_source : ℕ → Operation
  watches_config : ℕ → Watching → Operation
  retries_watch : (channel : Bool) → ℕ → Watching → Operation
  sets_callback : ℕ → Bool → Operation
  starts_watcher : ℕ → Starting → Operation
  stops_watcher : ℕ → Halting → Operation
  stops_adapter : ℕ → (first : Bool) → Operation
  reads_breaker measures_breaker forces_breaker : Operation
  cleans_up : Cleaning → Operation
  initializes : (reached : Bool) → Operation
  starts_up : (published failed : Bool) → Operation
  dispatches : ℕ → (deliveries : List ℕ) → (reports : Bool) → Operation
  polls : ℕ → List Poll → Operation

unfoldable pub code : Operation → List Action
code gets_config = read_client
code gets_metrics = get_metrics_code
code gets_cleanup_stats = cleanup_stats_code
code (gets_config_sources namespaces) = get_config_sources_code namespaces
code (gets_config_value attempts) = get_config_value_code attempts
code (checks_health has_client rounds) = check_health_code has_client rounds
code (watches_control_plane n begun ended) = watch_control_plane_code n begun ended
code (loads_source l) = get_config_server_code l
code (watches_source n) = start_adapter_code n
code (watches_config n w) = watch_config_code n w
code (retries_watch channel n w) = retry_watch_code channel n w
code (sets_callback n changes) = set_callback_code n changes
code (starts_watcher n s) = start_watcher_code n s
code (stops_watcher n s) = stop_watcher_code n s
code (stops_adapter n first) = stop_adapter_code n first
code reads_breaker = get_state_code
code measures_breaker = get_failure_rate_code
code forces_breaker = force_close_code
code (cleans_up c) = cleanup_code c
code (initializes reached) = init_components_code reached
code (starts_up published failed) = startup_code (goes [] published [] failed)
code (dispatches n deliveries reports) = dispatch_loop_code n deliveries reports ++ release ∷ []
code (polls n ps) = each (poll_code n) ps ++ release ∷ []

-- A goroutine of a WaitGroup holds it from the start, and ends with the release of it.
unfoldable pub joined : Operation → List Hold
joined (dispatches n deliveries reports) = record { mode = shared; resource = dispatching n } ∷ []
joined (polls n ps) = record { mode = shared; resource = looping n } ∷ []
joined o = []

unfoldable pub thread_of : Operation → Thread
thread_of o = record { held = joined o; todo = code o }

-- ===== src/Locks/Code.antt =====
-- What the operations of the plugin do with locks and shared fields, for each way through their
-- code. What a branch depends on is an argument: the locks do not say what a field has in it.
use lynx_apollo.Base.{ℕ, Bool, List, [], ◌∷◌, ◌++◌, if◌then◌else◌}
use lynx_apollo.Locks.{
  Resource, watcher_mutex, plugin_mu, cache_mutex, client_mu, breaker_mu, config_mu, start_once,
  stop_once, dispatching, adapter_mu, launch_once, halt_once, looping, client, metrics,
  retry_manager, circuit_breaker, watchers_variable, watchers_map, cache_variable, cache_map,
  config_server, breaker_state, on_error, backing, watch_context, cancel_watch, Mode, exclusive,
  shared, Action, acquire, release, await, read, write, peek,
}

unfoldable pub locked : Mode → Resource → List Action → List Action
locked m r body = acquire m r ∷ body ++ release ∷ []

unfoldable pub each {ℓ} : {A : Type ℓ} → (A → List Action) → List A → List Action
each code [] = []
each code (x ∷ xs) = code x ++ each code xs

-- What getConfigServer of the client came to.
pub data Lookup : Type 0 where
  closed known unresolved resolved : Lookup

abbrev pub get_config_server_code : Lookup → List Action
get_config_server_code closed = []
get_config_server_code known =
    locked shared client_mu (read config_server ∷ read config_server ∷ [])
get_config_server_code unresolved = locked shared client_mu (read config_server ∷ [])
get_config_server_code resolved =
    locked shared client_mu (read config_server ∷ [])
    ++ locked exclusive client_mu (write config_server ∷ [])

abbrev pub close_client_code : List Action
close_client_code = locked exclusive client_mu (write config_server ∷ [])

-- GetConfig, CheckHealth and WatchControlPlaneConfig begin like this.
abbrev pub read_client : List Action
read_client = locked shared plugin_mu (read client ∷ [])

abbrev pub get_metrics_code : List Action
get_metrics_code = locked shared plugin_mu (read metrics ∷ [])

-- The ways through getConfigValueFromApollo. A request is made with the cache on or off, and is
-- answered with a value or not. The map is made where it was nil.
pub data Reading : Type 0 where
  clientless hit : Reading
  requested : (cached : Bool) (lookup : Lookup) (answered made : Bool) → Reading

abbrev look_up : List Action
look_up = locked shared cache_mutex (read cache_variable ∷ read cache_map ∷ [])

abbrev store : Bool → List Action
store made = locked exclusive cache_mutex (
    read cache_variable ∷ (if made then write cache_variable ∷ [] else [])
    ++ read cache_variable ∷ write cache_map ∷ [])

abbrev pub read_value_code : Reading → List Action
read_value_code clientless = []
read_value_code hit = look_up
read_value_code (requested cached lookup answered made) =
    (if cached then look_up else [])
    ++ get_config_server_code lookup
    ++ (if answered then (if cached then store made else []) else [])

-- A call of the breaker's Do, which turns half-open before the attempt or not.
pub data Attempt : Type 0 where
  rejected : Attempt
  admitted : (probe : Bool) → Reading → Attempt

abbrev pub attempt_code : Attempt → List Action
attempt_code rejected = locked exclusive breaker_mu (read breaker_state ∷ [])
attempt_code (admitted probe r) =
    locked exclusive breaker_mu
      (read breaker_state ∷ (if probe then write breaker_state ∷ [] else []))
    ++ locked shared plugin_mu (read client ∷ read metrics ∷ [])
    ++ read_value_code r
    ++ locked exclusive breaker_mu (read breaker_state ∷ write breaker_state ∷ [])

abbrev read_components : List Action
read_components =
    locked shared plugin_mu (read circuit_breaker ∷ read retry_manager ∷ read metrics ∷ [])

unfoldable pub get_config_value_code : List Attempt → List Action
get_config_value_code attempts = read_components ++ each attempt_code attempts

-- A round of the health check: its read, and whether that passed.
pub record Round : Type 0 where
  pub attempts : List Attempt
  pub passed : Bool

abbrev pub check_management_code : List Action
check_management_code =
    peek watchers_variable
    ∷ locked shared watcher_mutex (read watchers_variable ∷ read watchers_map ∷ [])

unfoldable pub check_round_code : Round → List Action
check_round_code r =
    get_config_value_code r.attempts ++ (if r.passed then check_management_code else [])

abbrev check_apollo_health_code : List Round → List Action
check_apollo_health_code rounds =
    locked shared plugin_mu (read metrics ∷ read retry_manager ∷ read circuit_breaker ∷ [])
    ++ each check_round_code rounds

unfoldable pub check_health_code : Bool → List Round → List Action
check_health_code has_client rounds =
    read_client ++ (if has_client then check_apollo_health_code rounds else [])

-- Start of the ApolloConfigWatcher `n`.
abbrev pub start_adapter_code : ℕ → List Action
start_adapter_code n =
    locked exclusive (adapter_mu n) (
      read (cancel_watch n)
      ∷ read (cancel_watch n)
      ∷ write (watch_context n)
      ∷ write (cancel_watch n)
      ∷ [])
    ++ locked exclusive (launch_once n) []

-- Its Stop, the first one or a later one.
abbrev pub stop_adapter_code : ℕ → Bool → List Action
stop_adapter_code n first =
    locked exclusive (halt_once n)
      (if first then peek (cancel_watch n) ∷ peek (cancel_watch n) ∷ [] else [])
    ++ await (looping n) ∷ []

-- The ways through Start and Stop of the ConfigWatcher `n`. A Start that failed would report it.
pub data Starting : Type 0 where
  started clientless_start failed_start launched : Starting

abbrev launch_code : ℕ → List Action
launch_code n =
    locked shared (config_mu n) []
    ++ locked exclusive (config_mu n) (write (backing n) ∷ [])
    ++ start_adapter_code n

abbrev pub start_watcher_code : ℕ → Starting → List Action
start_watcher_code n started = locked exclusive (start_once n) []
start_watcher_code n clientless_start =
    locked exclusive (start_once n) (locked shared (config_mu n) [])
start_watcher_code n failed_start =
    locked exclusive (start_once n)
      (launch_code n ++ locked shared (config_mu n) (read (on_error n) ∷ []) ++ get_metrics_code)
start_watcher_code n launched = locked exclusive (start_once n) (launch_code n)

-- The backing watcher that Stop finds may have been stopped before.
pub data Halting : Type 0 where
  stopped_before unbacked : Halting
  backed : (first : Bool) → Halting

abbrev read_backing_code : ℕ → List Action
read_backing_code n = locked shared (config_mu n) (read (backing n) ∷ [])

abbrev pub stop_watcher_code : ℕ → Halting → List Action
stop_watcher_code n stopped_before = locked exclusive (stop_once n) []
stop_watcher_code n unbacked =
    locked exclusive (stop_once n) (read_backing_code n ++ await (dispatching n) ∷ [])
stop_watcher_code n (backed first) =
    locked exclusive (stop_once n)
      (read_backing_code n ++ stop_adapter_code n first ++ await (dispatching n) ∷ [])

-- ===== src/Plugin/State.antt =====
-- apollo.go: the plugin's fields and the checks on them. The locks are not modelled: each operation
-- is a sequence of steps that no other goroutine enters, but for those of watchers.go (Watching).
use lynx_apollo.Base.{
  ℕ, Text, literal, Bool, true, false, List, [], ◌∷◌, Option, none, some, if◌then◌else◌, not,
}
use lynx_apollo.Conf.{Apollo, default_namespace}
use lynx_apollo.Errors.{GoError, new_init_error}
use lynx_apollo.Metrics.{Metrics}
use lynx_apollo.Client.State.{Client}
use lynx_apollo.Client.Requests.{close}
use lynx_apollo.Resilience.Breaker.{CircuitBreaker}
use lynx_apollo.Resilience.Retry.{RetryManager}

-- A ConfigWatcher. `id` tells two watchers of one namespace apart; `has_on_change` and `has_on_error`
-- say that the callbacks of WatchConfig are set, and `backed` that Start has made its
-- ApolloConfigWatcher and launched the dispatch.
pub record ConfigWatcher : Type 0 where
  pub id : ℕ
  pub watched : Text
  pub has_on_change : Bool
  pub has_on_error : Bool
  pub watcher_client : Option Client
  pub started : Bool
  pub backed : Bool
  pub stopped : Bool

-- `has_runtime` says that `rt` is set, `has_channel` that `healthCheckCh` is not nil, and
-- `channel_closed` that the channel made with the plugin is closed. The last two are not fields of the
-- code: the watchers that the plugin has stopped and the clients that it has closed, which others may
-- still hold when the plugin has let go of them.
pub record PlugApollo : Type 0 where
  pub conf : Option Apollo
  pub has_runtime : Bool
  pub client : Option Client
  pub metrics : Option Metrics
  pub retry_manager : Option RetryManager
  pub circuit_breaker : Option CircuitBreaker
  pub initialized : Bool
  pub destroyed : Bool
  pub has_channel : Bool
  pub channel_closed : Bool
  pub config_watchers : List (Text × ConfigWatcher)
  pub next_watcher : ℕ
  pub config_cache : List (Text × Text)
  pub stopped_watchers : List ConfigWatcher
  pub closed_clients : List Client

-- What Close leaves of the client that the plugin has.
unfoldable pub closed_of : Option Client → List Client
closed_of none = []
closed_of (some c) = close c ∷ []

unfoldable pub new_apollo_config_center : PlugApollo
new_apollo_config_center = record {
  conf = none;
  has_runtime = false;
  client = none;
  metrics = none;
  retry_manager = none;
  circuit_breaker = none;
  initialized = false;
  destroyed = false;
  has_channel = true;
  channel_closed = false;
  config_watchers = [];
  next_watcher = 0;
  config_cache = [];
  stopped_watchers = [];
  closed_clients = [];
}

abbrev pub not_initialized_error : GoError
not_initialized_error = new_init_error (literal "Apollo plugin not initialized")

abbrev pub destroyed_error : GoError
destroyed_error = new_init_error (literal "Apollo plugin has been destroyed")

unfoldable pub check_initialized : PlugApollo → Option GoError
check_initialized p =
    if not p.initialized
    then some not_initialized_error
    else if p.destroyed
    then some destroyed_error
    else none

unfoldable pub is_initialized : PlugApollo → Bool
is_initialized p = p.initialized

unfoldable pub is_destroyed : PlugApollo → Bool
is_destroyed p = p.destroyed

unfoldable pub get_metrics : PlugApollo → Option Metrics
get_metrics p = p.metrics

unfoldable pub get_apollo_config : PlugApollo → Option Apollo
get_apollo_config p = p.conf

namespace_of : Option Apollo → Text
namespace_of none = default_namespace
namespace_of (some c) = c.namespace

-- GetNamespace
unfoldable pub get_namespace : PlugApollo → Text
unfolding namespace_of
get_namespace p = namespace_of p.conf

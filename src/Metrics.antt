-- ===== src/Metrics.antt =====
-- metrics.go: the counters that the plugin increments. Each increment is an entry with its labels, so
-- that a counter's value is the number of its entries. The registry of Prometheus is an interface.
pub mod Registration
use Prim.Native.String.{String}
use lynx_apollo.Base.{
  ℕ, ◌≡◌, Text, literal, text_eq, Bool, true, false, not, ◌||◌, List, [], ◌∷◌, ◌++◌, Option, none,
  some, if◌then◌else◌,
}

pub data Sample : Type 0 where
  client_operation : String → String → Sample
  config_operation : Text → String → String → Sample
  config_change : Text → Sample
  notification : Text → String → Sample
  health_check : String → Sample
  connection_error : String → Sample
  cache_hit : Text → Sample
  cache_miss : Text → Sample

-- The increments, newest first.
abbrev pub Metrics : Type 0
Metrics = List Sample

-- A collector: its full name, and the names of its labels.
pub record Collector : Type 0 where
  pub collector_name : Text
  pub labels : List String

-- prometheus.BuildFQName
abbrev pub in_lynx : String → List String → Collector
in_lynx name labels = record {
  collector_name = literal "lynx_apollo_" ++ literal name;
  labels = labels;
}

abbrev pub client_operations_total : Collector
client_operations_total = in_lynx "client_operations_total" ("operation" ∷ "status" ∷ [])

abbrev pub config_operations_total : Collector
config_operations_total =
    in_lynx "config_operations_total" ("namespace" ∷ "operation" ∷ "status" ∷ [])

abbrev pub config_changes_total : Collector
config_changes_total = in_lynx "config_changes_total" ("namespace" ∷ [])

abbrev pub notification_total : Collector
notification_total = in_lynx "notification_total" ("namespace" ∷ "status" ∷ [])

abbrev pub health_check_total : Collector
health_check_total = in_lynx "health_check_total" ("status" ∷ [])

abbrev pub connection_errors_total : Collector
connection_errors_total = in_lynx "connection_errors_total" ("error_type" ∷ [])

abbrev pub cache_hits_total : Collector
cache_hits_total = in_lynx "cache_hits_total" ("namespace" ∷ [])

abbrev pub cache_misses_total : Collector
cache_misses_total = in_lynx "cache_misses_total" ("namespace" ∷ [])

abbrev pub later_collectors : List Collector
later_collectors =
    in_lynx "client_operations_duration_seconds" ("operation" ∷ [])
    ∷ in_lynx "client_errors_total" ("operation" ∷ "error_type" ∷ [])
    ∷ config_operations_total
    ∷ in_lynx "config_operations_duration_seconds" ("namespace" ∷ "operation" ∷ [])
    ∷ config_changes_total
    ∷ notification_total
    ∷ in_lynx "notification_duration_seconds" ("namespace" ∷ [])
    ∷ in_lynx "notification_errors_total" ("namespace" ∷ "error_type" ∷ [])
    ∷ health_check_total
    ∷ in_lynx "health_check_duration_seconds" []
    ∷ in_lynx "health_check_failed_total" ("error_type" ∷ [])
    ∷ in_lynx "connection_total" ("status" ∷ [])
    ∷ connection_errors_total
    ∷ cache_hits_total
    ∷ cache_misses_total
    ∷ []

-- The collectors, in the order in which they are registered.
unfoldable pub collectors : List Collector
collectors = client_operations_total ∷ later_collectors

-- The default registry of Prometheus, as promauto uses it: a name is registered once, and
-- `register` says whether it was; where it says no, promauto panics.
pub record Registry (W : Type 0) : Type 0 where
  pub taken : Text → W → Bool
  pub register : Collector → W → W × Bool
  pub register-eq : (c : Collector) (w : W) → (register c w).1 ≡ not (taken c.collector_name w)
  pub taken-register :
      (n : Text) (c : Collector) (w : W)
      → taken n (register c w).0 ≡ (text_eq n c.collector_name || taken n w)

module _ {W : Type 0} ⦃reg : Registry W⦄ where
  -- Registers one after another, up to the first panic.
  unfoldable pub register_collectors : List Collector → W → W × Bool
  register_collectors [] w = (w, true)
  register_collectors (c ∷ cs) w =
      let out = register_collectors cs (reg.register c w).0 in
      if (reg.register c w).1 then out else ((reg.register c w).0, false)

  -- NewApolloMetrics; `none` is a panic.
  unfoldable pub new_apollo_metrics : W → W × Option Metrics
  unfolding register_collectors collectors
  new_apollo_metrics w =
      let out = register_collectors collectors w in (out.0, if out.1 then some [] else none)

-- The methods do nothing on a nil receiver.
increment : Sample → Option Metrics → Option Metrics
increment s none = none
increment s (some m) = some (s ∷ m)

unfoldable pub record_client_operation : String → String → Option Metrics → Option Metrics
unfolding increment
record_client_operation operation status = increment (client_operation operation status)

unfoldable pub record_config_operation : Text → String → String → Option Metrics → Option Metrics
unfolding increment
record_config_operation namespace operation status =
    increment (config_operation namespace operation status)

unfoldable pub record_config_change : Text → Option Metrics → Option Metrics
unfolding increment
record_config_change namespace = increment (config_change namespace)

unfoldable pub record_notification : Text → String → Option Metrics → Option Metrics
unfolding increment
record_notification namespace status = increment (notification namespace status)

unfoldable pub record_health_check : String → Option Metrics → Option Metrics
unfolding increment
record_health_check status = increment (health_check status)

unfoldable pub record_connection_error : String → Option Metrics → Option Metrics
unfolding increment
record_connection_error error_type = increment (connection_error error_type)

unfoldable pub record_cache_hit : Text → Option Metrics → Option Metrics
unfolding increment
record_cache_hit namespace = increment (cache_hit namespace)

unfoldable pub record_cache_miss : Text → Option Metrics → Option Metrics
unfolding increment
record_cache_miss namespace = increment (cache_miss namespace)

-- The collector that an increment is for, and the values for its labels.
unfoldable pub collector_of : Sample → Collector
collector_of (client_operation o st) = client_operations_total
collector_of (config_operation n o st) = config_operations_total
collector_of (config_change n) = config_changes_total
collector_of (notification n st) = notification_total
collector_of (health_check st) = health_check_total
collector_of (connection_error e) = connection_errors_total
collector_of (cache_hit n) = cache_hits_total
collector_of (cache_miss n) = cache_misses_total

unfoldable pub label_values : Sample → List Text
label_values (client_operation o st) = literal o ∷ literal st ∷ []
label_values (config_operation n o st) = n ∷ literal o ∷ literal st ∷ []
label_values (config_change n) = n ∷ []
label_values (notification n st) = n ∷ literal st ∷ []
label_values (health_check st) = literal st ∷ []
label_values (connection_error e) = literal e ∷ []
label_values (cache_hit n) = n ∷ []
label_values (cache_miss n) = n ∷ []

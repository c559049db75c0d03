-- ===== src/Conf.antt =====
-- conf/apollo.pb.go and conf/defaults.go: the configuration message, the defaults and the bounds.
use lynx_apollo.Base.{
  ℕ, ◌*◌, ◌/◌, ◌^◌, second, millisecond, Bool, List, [], ◌∷◌, Option, Text, literal, ℤ, pos, Float,
  frac,
}

-- durationpb.Duration
pub record Duration : Type 0 where
  pub seconds : ℤ
  pub nanos : ℤ

pub record ServiceConfig : Type 0 where
  pub service_namespace : Text
  pub additional_namespaces : List Text
  pub priority : ℤ
  pub merge_strategy : Text

-- A nil pointer is `none`.
pub record Apollo : Type 0 where
  pub app_id : Text
  pub cluster : Text
  pub namespace : Text
  pub meta_server : Text
  pub token : Text
  pub timeout : Option Duration
  pub enable_notification : Bool
  pub notification_timeout : Option Duration
  pub enable_cache : Bool
  pub cache_dir : Text
  pub enable_metrics : Bool
  pub enable_retry : Bool
  pub max_retry_times : ℤ
  pub retry_interval : Option Duration
  pub enable_circuit_breaker : Bool
  pub circuit_breaker_threshold : Float
  pub enable_graceful_shutdown : Bool
  pub shutdown_timeout : Option Duration
  pub enable_logging : Bool
  pub log_level : Text
  pub service_config : Option ServiceConfig
  pub release_key : Text
  pub ip : Text

unfoldable pub default_namespace : Text
unfolding literal
default_namespace = literal "application"

unfoldable pub default_cluster : Text
unfolding literal
default_cluster = literal "default"

unfoldable pub default_cache_dir : Text
unfolding literal
default_cache_dir = literal "/tmp/apollo-cache"

abbrev pub default_timeout_seconds : ℕ
default_timeout_seconds = 10

abbrev pub min_timeout_seconds : ℕ
min_timeout_seconds = 1

abbrev pub max_timeout_seconds : ℕ
max_timeout_seconds = 60

abbrev pub default_notification_timeout_seconds : ℕ
default_notification_timeout_seconds = 30

abbrev pub min_notification_timeout_seconds : ℕ
min_notification_timeout_seconds = 5

abbrev pub max_notification_timeout_seconds : ℕ
max_notification_timeout_seconds = 300

abbrev pub default_max_retry_times : ℕ
default_max_retry_times = 3

abbrev pub min_retry_times : ℕ
min_retry_times = 0

abbrev pub max_retry_times_limit : ℕ
max_retry_times_limit = 10

abbrev pub default_retry_interval : ℕ
default_retry_interval = 1 * second

abbrev pub min_retry_interval : ℕ
min_retry_interval = 100 * millisecond

abbrev pub max_retry_interval : ℕ
max_retry_interval = 30 * second

-- As float32: 0.5 is exact, 0.1 and 0.9 are rounded to 24 bits.
abbrev pub default_circuit_breaker_threshold : Float
default_circuit_breaker_threshold = frac (pos 1) 2

abbrev pub min_circuit_breaker_threshold : Float
min_circuit_breaker_threshold = frac (pos 13421773) (2 ^ 27)

abbrev pub max_circuit_breaker_threshold : Float
max_circuit_breaker_threshold = frac (pos 15099494) (2 ^ 24)

abbrev pub default_shutdown_timeout : ℕ
default_shutdown_timeout = 30 * second

abbrev pub min_shutdown_timeout : ℕ
min_shutdown_timeout = 5 * second

abbrev pub max_shutdown_timeout : ℕ
max_shutdown_timeout = 300 * second

unfoldable pub supported_log_levels : List Text
unfolding literal
supported_log_levels = literal "debug" ∷ literal "info" ∷ literal "warn" ∷ literal "error" ∷ []

unfoldable pub supported_merge_strategies : List Text
unfolding literal
supported_merge_strategies = literal "override" ∷ literal "merge" ∷ literal "append" ∷ []

unfoldable pub get_default_timeout : Duration
get_default_timeout = record { seconds = pos default_timeout_seconds; nanos = pos 0 }

unfoldable pub get_default_notification_timeout : Duration
get_default_notification_timeout = record {
  seconds = pos default_notification_timeout_seconds;
  nanos = pos 0;
}

-- int64(d.Seconds()), for whole seconds
unfoldable pub get_default_retry_interval : Duration
get_default_retry_interval = record {
  seconds = pos (default_retry_interval / second);
  nanos = pos 0;
}

unfoldable pub get_default_shutdown_timeout : Duration
get_default_shutdown_timeout = record {
  seconds = pos (default_shutdown_timeout / second);
  nanos = pos 0;
}

-- ===== src/Validator/Rules.antt =====
-- validator.go: what the validator asks of a configuration, as conditions that name no check.
use lynx_apollo.Base.{
  ℕ, ◌*◌, ◌≤◌, ◌≡◌, ◌≢◌, ◌⊎◌, true, false, [], Option, none, some, Text, member, length, pos, ◌≤ℤ◌,
  ◌<ℤ◌, ltb_float, second, millisecond,
}
use lynx_apollo.Conf.{
  Duration, ServiceConfig, Apollo, min_circuit_breaker_threshold, max_circuit_breaker_threshold,
  supported_log_levels, supported_merge_strategies,
}
use lynx_apollo.Validator.Result.{Externals, Url, scheme, bad_url, whole_seconds}
use lynx_apollo.Validator.Checks.{all_app_id_bytes, is_http}

-- The scheme of a URL that parses.
abbrev pub HasScheme : (Text → Type 0) → Url → Type 0
HasScheme P (scheme s) = P s
HasScheme P (bad_url e) = ⊥

pub record BasicFields (x : Externals) (c : Apollo) : Type 0 where
  pub app_id_set : c.app_id ≢ []
  pub app_id_length : length c.app_id ≤ 128
  pub app_id_bytes : all_app_id_bytes c.app_id ≡ true
  pub meta_server_set : c.meta_server ≢ []
  pub meta_server_parses : HasScheme (λ s. Unit {0}) (x.parse_url c.meta_server)
  pub cluster_length : length c.cluster ≤ 64
  pub namespace_length : length c.namespace ≤ 128
  pub token_length : (c.token ≡ []) ⊎ ((8 ≤ length c.token) × (length c.token ≤ 1024))
  pub cache_dir_length : length c.cache_dir ≤ 512

pub record NumericRanges (c : Apollo) : Type 0 where
  pub retries_low : pos 0 ≤ℤ c.max_retry_times
  pub retries_high : c.max_retry_times ≤ℤ pos 10
  pub threshold_low : ltb_float c.circuit_breaker_threshold min_circuit_breaker_threshold ≡ false
  pub threshold_high : ltb_float max_circuit_breaker_threshold c.circuit_breaker_threshold ≡ false

abbrev pub IsMergeStrategy : Option ServiceConfig → Type 0
IsMergeStrategy none = Unit {0}
IsMergeStrategy (some s) =
    (s.merge_strategy ≡ []) ⊎ (member s.merge_strategy supported_merge_strategies ≡ true)

pub record EnumValues (c : Apollo) : Type 0 where
  pub log_level_known : (c.log_level ≡ []) ⊎ (member c.log_level supported_log_levels ≡ true)
  pub merge_strategy_known : IsMergeStrategy c.service_config

-- An unset duration passes; of a set one the whole seconds count.
abbrev pub Within : ℕ → ℕ → Option Duration → Type 0
Within lo hi none = Unit {0}
Within lo hi (some d) = (pos lo ≤ℤ whole_seconds d) × (whole_seconds d ≤ℤ pos hi)

pub record TimeConfigs (c : Apollo) : Type 0 where
  pub timeout_within : Within (1 * second) (60 * second) c.timeout
  pub notification_within : Within (5 * second) (300 * second) c.notification_timeout
  pub retry_within : Within (100 * millisecond) (30 * second) c.retry_interval
  pub shutdown_within : Within (5 * second) (300 * second) c.shutdown_timeout

abbrev pub Shorter : Option Duration → Option Duration → Type 0
Shorter (some t) (some n) = whole_seconds t <ℤ whole_seconds n
Shorter _ _ = Unit {0}

pub record Dependencies (c : Apollo) : Type 0 where
  pub timeout_shorter : Shorter c.timeout c.notification_timeout
  pub cache_dir_set : c.enable_cache ≡ true → c.cache_dir ≢ []

pub record SecurityConfigs (x : Externals) (c : Apollo) : Type 0 where
  pub token_long : (c.token ≡ []) ⊎ (8 ≤ length c.token)
  pub not_http : (c.meta_server ≡ []) ⊎ (is_http (x.parse_url c.meta_server) ≡ false)

abbrev pub ExactWithin : Externals → ℕ → ℕ → Option Duration → Type 0
ExactWithin x lo hi none = Unit {0}
ExactWithin x lo hi (some d) = (pos lo ≤ℤ x.as_duration d) × (x.as_duration d ≤ℤ pos hi)

pub record NetworkConfigs (x : Externals) (c : Apollo) : Type 0 where
  pub timeout_exact : ExactWithin x (100 * millisecond) (30 * second) c.timeout
  pub retries_low : pos 0 ≤ℤ c.max_retry_times
  pub retries_high : c.max_retry_times ≤ℤ pos 10

-- All of it.
pub record Passes (x : Externals) (c : Apollo) : Type 0 where
  pub basic : BasicFields x c
  pub numeric : NumericRanges c
  pub enums : EnumValues c
  pub times : TimeConfigs c
  pub dependencies : Dependencies c
  pub security : SecurityConfigs x c
  pub network : NetworkConfigs x c

-- ===== src/Validator/Checks.antt =====
-- validator.go: the checks, in the order in which they run.
use lynx_apollo.Base.{
  ℕ, ◌*◌, Bool, true, false, not, ◌&&◌, ◌||◌, [], ◌∷◌, ◌++◌, Option, none, some, Text, literal,
  member, is_empty, text_eq, length, ltb, leb, if◌then◌else◌, pos, ltb_ℤ, Float, ltb_float, second,
  millisecond, frac, ◌==◌,
}
use lynx_apollo.Conf.{
  Duration, ServiceConfig, Apollo, min_timeout_seconds, max_timeout_seconds,
  min_notification_timeout_seconds, max_notification_timeout_seconds, min_retry_times,
  max_retry_times_limit, min_retry_interval, max_retry_interval, default_circuit_breaker_threshold,
  min_circuit_breaker_threshold, max_circuit_breaker_threshold, min_shutdown_timeout,
  max_shutdown_timeout, supported_log_levels, supported_merge_strategies,
}
use lynx_apollo.Validator.Result.{
  nil, text, int, float, duration, ValidationResult, Url, scheme, bad_url, Externals,
  new_validation_result, add_error, add_error_if, whole_seconds, outside, result_message,
}
use lynx_apollo.Errors.{GoError, plain}

-- [a-zA-Z0-9_-]
unfoldable pub is_app_id_byte : ℕ → Bool
is_app_id_byte b =
    (leb b'a' b && leb b b'z')
    || (leb b'A' b && leb b b'Z')
    || (leb b'0' b && leb b b'9')
    || (b == b'_')
    || (b == b'-')

unfoldable pub all_app_id_bytes : Text → Bool
all_app_id_bytes [] = true
all_app_id_bytes (b ∷ bs) = is_app_id_byte b && all_app_id_bytes bs

-- ^[a-zA-Z0-9_-]+$
unfoldable pub matches_app_id : Text → Bool
matches_app_id t = not (is_empty t) && all_app_id_bytes t

abbrev longer_than : ℕ → Text → Bool
longer_than n t = ltb n (length t)

abbrev is_bad : Url → Bool
is_bad (scheme s) = false
is_bad (bad_url e) = true

abbrev url_error : Url → Text
url_error (scheme s) = []
url_error (bad_url e) = e

abbrev pub is_http : Url → Bool
is_http (scheme s) = text_eq s (literal "http")
is_http (bad_url e) = false

check_app_id : Apollo → ValidationResult → ValidationResult
check_app_id c r =
    if is_empty c.app_id
    then add_error (literal "app_id") (literal "app_id cannot be empty") (text c.app_id) r
    else if longer_than 128 c.app_id
    then add_error (literal "app_id") (literal "app_id length must not exceed 128 characters")
        (text c.app_id) r
    else add_error_if (not (matches_app_id c.app_id)) (literal "app_id")
        (literal "app_id can only contain letters, numbers, underscores, and hyphens")
        (text c.app_id) r

check_meta_server : Externals → Apollo → ValidationResult → ValidationResult
check_meta_server x c r =
    if is_empty c.meta_server
    then add_error (literal "meta_server") (literal "meta_server cannot be empty")
        (text c.meta_server) r
    else add_error_if (is_bad (x.parse_url c.meta_server)) (literal "meta_server")
        (literal "meta_server must be a valid URL: " ++ url_error (x.parse_url c.meta_server))
        (text c.meta_server) r

check_lengths : Apollo → ValidationResult → ValidationResult
check_lengths c r0 =
    let r1 =
      add_error_if (not (is_empty c.cluster) && longer_than 64 c.cluster) (literal "cluster")
        (literal "cluster length must not exceed 64 characters") (text c.cluster) r0 in
    let r2 =
      add_error_if (not (is_empty c.namespace) && longer_than 128 c.namespace) (literal "namespace")
        (literal "namespace length must not exceed 128 characters") (text c.namespace) r1 in
    let r3 =
      add_error_if (not (is_empty c.token) && longer_than 1024 c.token) (literal "token")
        (literal "token length must not exceed 1024 characters") (text c.token) r2 in
    let r4 =
      add_error_if (not (is_empty c.token) && ltb (length c.token) 8) (literal "token")
        (literal "token must be at least 8 characters long") (text c.token) r3 in
    add_error_if (not (is_empty c.cache_dir) && longer_than 512 c.cache_dir) (literal "cache_dir")
      (literal "cache_dir length must not exceed 512 characters") (text c.cache_dir) r4

unfoldable pub validate_basic_fields : Externals → Apollo → ValidationResult → ValidationResult
unfolding check_app_id check_meta_server check_lengths
validate_basic_fields x c r = check_lengths c (check_meta_server x c (check_app_id c r))

unfoldable pub validate_numeric_ranges : Apollo → ValidationResult → ValidationResult
validate_numeric_ranges c r0 =
    let r1 =
      add_error_if (outside min_retry_times max_retry_times_limit c.max_retry_times)
        (literal "max_retry_times") (literal "max_retry_times must be between 0 and 10")
        (int c.max_retry_times) r0 in
    add_error_if
      (ltb_float c.circuit_breaker_threshold min_circuit_breaker_threshold
        || ltb_float max_circuit_breaker_threshold c.circuit_breaker_threshold)
      (literal "circuit_breaker_threshold")
      (literal "circuit_breaker_threshold must be between 0.1 and 0.9")
      (float c.circuit_breaker_threshold) r1

unfoldable pub check_merge_strategy : Option ServiceConfig → ValidationResult → ValidationResult
check_merge_strategy none r = r
check_merge_strategy (some s) r =
    add_error_if
      (not (is_empty s.merge_strategy) && not (member s.merge_strategy supported_merge_strategies))
      (literal "service_config.merge_strategy")
      (literal "merge_strategy must be one of: [override merge append]") (text s.merge_strategy) r

unfoldable pub validate_enum_values : Apollo → ValidationResult → ValidationResult
unfolding check_merge_strategy
validate_enum_values c r = check_merge_strategy c.service_config (
    add_error_if (not (is_empty c.log_level) && not (member c.log_level supported_log_levels))
      (literal "log_level") (literal "log_level must be one of: [debug info warn error]")
      (text c.log_level) r)

-- One bound of validateTimeConfigs; a nil duration passes.
unfoldable pub check_seconds :
    Option Duration → ℕ → ℕ → Text → Text → ValidationResult → ValidationResult
check_seconds none lo hi field message r = r
check_seconds (some d) lo hi field message r =
    add_error_if (outside lo hi (whole_seconds d)) field message (duration (whole_seconds d)) r

unfoldable pub validate_time_configs : Apollo → ValidationResult → ValidationResult
unfolding check_seconds
validate_time_configs c r0 =
    let r1 =
      check_seconds c.timeout (min_timeout_seconds * second) (max_timeout_seconds * second)
        (literal "timeout") (literal "timeout must be between 1 and 60 seconds") r0 in
    let r2 =
      check_seconds c.notification_timeout (min_notification_timeout_seconds * second)
        (max_notification_timeout_seconds * second) (literal "notification_timeout")
        (literal "notification_timeout must be between 5 and 300 seconds") r1 in
    let r3 =
      check_seconds c.retry_interval min_retry_interval max_retry_interval
        (literal "retry_interval") (literal "retry_interval must be between 100ms and 30s") r2 in
    check_seconds c.shutdown_timeout min_shutdown_timeout max_shutdown_timeout
      (literal "shutdown_timeout") (literal "shutdown_timeout must be between 5s and 5m0s") r3

unfoldable pub check_timeout_order :
    Option Duration → Option Duration → ValidationResult → ValidationResult
check_timeout_order (some t) (some n) r =
    add_error_if (not (ltb_ℤ (whole_seconds t) (whole_seconds n))) (literal "timeout")
      (literal "timeout should be less than notification_timeout to ensure proper operation")
      (duration (whole_seconds t)) r
check_timeout_order _ _ r = r

unfoldable pub validate_dependencies : Apollo → ValidationResult → ValidationResult
unfolding check_timeout_order
validate_dependencies c r =
    add_error_if (c.enable_cache && is_empty c.cache_dir) (literal "cache_dir")
      (literal "cache_dir must be set when enable_cache is true") (text c.cache_dir)
      (check_timeout_order c.timeout c.notification_timeout r)

unfoldable pub validate_security_configs : Externals → Apollo → ValidationResult → ValidationResult
validate_security_configs x c r0 =
    let r1 =
      add_error_if (not (is_empty c.token) && ltb (length c.token) 8) (literal "token")
        (literal "token must be at least 8 characters long for security") (text c.token) r0 in
    add_error_if (not (is_empty c.meta_server) && is_http (x.parse_url c.meta_server))
      (literal "meta_server") (literal "meta_server should use HTTPS in production environments")
      (text c.meta_server) r1

unfoldable pub check_network_timeout :
    Externals → Option Duration → ValidationResult → ValidationResult
check_network_timeout x none r = r
check_network_timeout x (some d) r =
    add_error_if (ltb_ℤ (pos (30 * second)) (x.as_duration d)) (literal "timeout")
      (literal "timeout should not exceed 30s for network operations") (duration (x.as_duration d))
      (add_error_if (ltb_ℤ (x.as_duration d) (pos (100 * millisecond))) (literal "timeout")
        (literal "timeout should be at least 100ms for network operations")
        (duration (x.as_duration d)) r)

unfoldable pub validate_network_configs : Externals → Apollo → ValidationResult → ValidationResult
unfolding check_network_timeout
validate_network_configs x c r0 =
    let r1 = check_network_timeout x c.timeout r0 in
    let r2 =
      add_error_if (ltb_ℤ c.max_retry_times (pos 0)) (literal "max_retry_times")
        (literal "max_retry_times cannot be negative") (int c.max_retry_times) r1 in
    add_error_if (ltb_ℤ (pos 10) c.max_retry_times) (literal "max_retry_times")
      (literal "max_retry_times should not exceed 10 to prevent excessive retries")
      (int c.max_retry_times) r2

-- f == 0
abbrev pub is_zero : Float → Bool
is_zero (frac (pos n) d) = n == 0
is_zero _ = false

unfoldable pub apply_implicit_defaults : Apollo → Apollo
apply_implicit_defaults c =
    if is_zero c.circuit_breaker_threshold
    then record c { circuit_breaker_threshold = default_circuit_breaker_threshold }
    else c

-- Validate. The defaults are written into the configuration; a nil one is refused.
unfoldable pub validate : Externals → Option Apollo → Option Apollo × ValidationResult
validate x none = (
  none,
  add_error (literal "config") (literal "configuration cannot be nil") nil new_validation_result,
)
validate x (some config) =
    let c = apply_implicit_defaults config in
    let r1 = validate_basic_fields x c new_validation_result in
    let r2 = validate_numeric_ranges c r1 in
    let r3 = validate_enum_values c r2 in
    let r4 = validate_time_configs c r3 in
    let r5 = validate_dependencies c r4 in
    let r6 = validate_security_configs x c r5 in (some c, validate_network_configs x c r6)

-- ValidateConfig
unfoldable pub validate_config : Externals → Option Apollo → Option GoError
unfolding validate result_message
validate_config x config =
    let result = (validate x config).1 in
    if result.is_valid
    then none
    else some (plain (literal "configuration validation failed: " ++ result_message x result))

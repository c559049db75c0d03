-- ===== src/Tests/Validator.antt =====
-- The validator at concrete inputs.
use lynx_apollo.Base.{
  ℤ, ◌+◌, ◌*◌, ◌≡◌, ◌↔◌, refl, Bool, true, false, [], none, some, codes, pos, second, frac, literal,
  text_eq, member,
}
use lynx_apollo.Conf.{Apollo, supported_log_levels}
use lynx_apollo.Validator.Result.{Externals, scheme, new_validation_result, whole_seconds}
use lynx_apollo.Validator.Rules.{Passes}
use lynx_apollo.Validator.Checks.{
  validate, apply_implicit_defaults, validate_basic_fields, validate_numeric_ranges,
  validate_enum_values, validate_time_configs, validate_dependencies, validate_security_configs,
  validate_network_configs, matches_app_id, all_app_id_bytes, is_app_id_byte, check_merge_strategy,
  check_network_timeout, check_seconds, check_timeout_order,
}
use lynx_apollo.Validator.Sound.{validate_iff}
use lynx_apollo.Validator.Errors.{Agrees, validate-Agrees, retry_interval_sub_second}

abbrev pub nanoseconds : ℤ → ℤ → ℤ
nanoseconds (pos s) (pos n) = pos (s * second + n)
nanoseconds _ _ = pos 0

-- Every URL is an https one, and negative durations are taken for 0.
abbrev pub lenient : Externals
lenient = record {
  parse_url = λ t. scheme (codes "https");
  as_duration = λ d. nanoseconds d.seconds d.nanos;
  format_value = λ v. [];
  as_duration-eq = λ s n h. refl;
}

abbrev pub sample : Apollo
sample = record {
  app_id = codes "demo-app";
  cluster = codes "default";
  namespace = codes "application";
  meta_server = codes "https://meta";
  token = [];
  timeout = some (record { seconds = pos 10; nanos = pos 0 });
  enable_notification = true;
  notification_timeout = some (record { seconds = pos 30; nanos = pos 0 });
  enable_cache = true;
  cache_dir = codes "/tmp/cache";
  enable_metrics = true;
  enable_retry = true;
  max_retry_times = pos 3;
  retry_interval = some (record { seconds = pos 1; nanos = pos 0 });
  enable_circuit_breaker = true;
  circuit_breaker_threshold = frac (pos 0) 1;
  enable_graceful_shutdown = true;
  shutdown_timeout = none;
  enable_logging = true;
  log_level = codes "info";
  service_config = none;
  release_key = [];
  ip = [];
}

abbrev hasty : Apollo
hasty = record sample {
  retry_interval = some (record { seconds = pos 0; nanos = pos 500_000_000 });
}

-- 18446744079 s wrap to 5.29 s.
abbrev wrapping : Apollo
wrapping = record sample {
  notification_timeout = some (record { seconds = pos 18446744079; nanos = pos 0 });
  timeout = some (record { seconds = pos 5; nanos = pos 0 });
}

-- Opens all that a run of the validator computes with.
passes : Apollo → Bool
unfolding validate validate_network_configs apply_implicit_defaults validate_security_configs
    text_eq literal validate_dependencies whole_seconds validate_time_configs validate_enum_values
    member supported_log_levels validate_numeric_ranges validate_basic_fields matches_app_id
    all_app_id_bytes is_app_id_byte new_validation_result check_merge_strategy check_network_timeout
    check_seconds check_timeout_order
passes c = (validate lenient (some c)).1.is_valid

sample-passes : passes sample ≡ true
unfolding passes
sample-passes = refl

wrapping-passes : passes wrapping ≡ true
unfolding passes
wrapping-passes = refl

validate_iff_example :
    ((validate lenient (some sample)).1.is_valid ≡ true)
    ↔ Passes lenient (apply_implicit_defaults sample)
validate_iff_example = validate_iff lenient sample

validate-Agrees_test : Agrees (validate lenient (some hasty)).1
validate-Agrees_test = validate-Agrees lenient (some hasty)

retry_interval_sub_second_test : (validate lenient (some hasty)).1.is_valid ≡ false
retry_interval_sub_second_test = retry_interval_sub_second lenient hasty 500_000_000 refl

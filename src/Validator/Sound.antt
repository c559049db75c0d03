-- ===== src/Validator/Sound.antt =====
-- validator.go: which configurations pass.
use lynx_apollo.Base.{◌≡◌, ◌↔◌, refl, true, some, arith}
use lynx_apollo.Conf.{Apollo}
use lynx_apollo.Validator.Result.{Externals, ValidationResult, add_error, new_validation_result}
use lynx_apollo.Validator.Checks.{
  matches_app_id, validate_basic_fields, validate_numeric_ranges, validate_enum_values,
  validate_time_configs, validate_dependencies, validate_security_configs, validate_network_configs,
  apply_implicit_defaults, validate,
}
use lynx_apollo.Validator.Rules.{
  BasicFields, NumericRanges, EnumValues, TimeConfigs, Dependencies, SecurityConfigs,
  NetworkConfigs, Passes,
}

module _ (x : Externals) (c : Apollo) (r : ValidationResult) where
  basic_sound :
      (validate_basic_fields x c r).is_valid ≡ true → (r.is_valid ≡ true) × BasicFields x c
  unfolding validate_basic_fields add_error matches_app_id
  basic_sound h = ground arith

  basic_complete :
      r.is_valid ≡ true → BasicFields x c → (validate_basic_fields x c r).is_valid ≡ true
  unfolding validate_basic_fields add_error matches_app_id
  basic_complete v b = ground arith

module _ (c : Apollo) (r : ValidationResult) where
  numeric_sound :
      (validate_numeric_ranges c r).is_valid ≡ true → (r.is_valid ≡ true) × NumericRanges c
  unfolding validate_numeric_ranges add_error
  numeric_sound h = ground arith

  numeric_complete :
      r.is_valid ≡ true → NumericRanges c → (validate_numeric_ranges c r).is_valid ≡ true
  unfolding validate_numeric_ranges add_error
  numeric_complete v b = ground arith

  enum_sound : (validate_enum_values c r).is_valid ≡ true → (r.is_valid ≡ true) × EnumValues c
  unfolding validate_enum_values add_error
  enum_sound h = ground arith

  enum_complete : r.is_valid ≡ true → EnumValues c → (validate_enum_values c r).is_valid ≡ true
  unfolding validate_enum_values add_error
  enum_complete v b = ground arith

  time_sound : (validate_time_configs c r).is_valid ≡ true → (r.is_valid ≡ true) × TimeConfigs c
  unfolding validate_time_configs add_error
  time_sound h = ground arith

  time_complete : r.is_valid ≡ true → TimeConfigs c → (validate_time_configs c r).is_valid ≡ true
  unfolding validate_time_configs add_error
  time_complete v b = ground arith

  deps_sound : (validate_dependencies c r).is_valid ≡ true → (r.is_valid ≡ true) × Dependencies c
  unfolding validate_dependencies add_error
  deps_sound h = ground arith

  deps_complete : r.is_valid ≡ true → Dependencies c → (validate_dependencies c r).is_valid ≡ true
  unfolding validate_dependencies add_error
  deps_complete v b = ground arith

module _ (x : Externals) (c : Apollo) (r : ValidationResult) where
  security_sound :
      (validate_security_configs x c r).is_valid ≡ true → (r.is_valid ≡ true) × SecurityConfigs x c
  unfolding validate_security_configs add_error
  security_sound h = ground arith

  security_complete :
      r.is_valid ≡ true → SecurityConfigs x c → (validate_security_configs x c r).is_valid ≡ true
  unfolding validate_security_configs add_error
  security_complete v b = ground arith

  network_sound :
      (validate_network_configs x c r).is_valid ≡ true → (r.is_valid ≡ true) × NetworkConfigs x c
  unfolding validate_network_configs add_error
  network_sound h = ground arith

  network_complete :
      r.is_valid ≡ true → NetworkConfigs x c → (validate_network_configs x c r).is_valid ≡ true
  unfolding validate_network_configs add_error
  network_complete v b = ground arith

-- A configuration passes exactly when it meets the rules, after the implicit default of the
-- threshold has been put in.
pub validate_iff :
    (x : Externals) (c : Apollo)
    → ((validate x (some c)).1.is_valid ≡ true) ↔ Passes x (apply_implicit_defaults c)
unfolding validate new_validation_result
validate_iff x c = (sound, complete)
  where
    d : Apollo
    d = apply_implicit_defaults c

    r1 : ValidationResult
    r1 = validate_basic_fields x d new_validation_result

    r2 : ValidationResult
    r2 = validate_numeric_ranges d r1

    r3 : ValidationResult
    r3 = validate_enum_values d r2

    r4 : ValidationResult
    r4 = validate_time_configs d r3

    r5 : ValidationResult
    r5 = validate_dependencies d r4

    r6 : ValidationResult
    r6 = validate_security_configs x d r5

    sound : (validate_network_configs x d r6).is_valid ≡ true → Passes x d
    sound h =
        let (h6, network) = network_sound x d r6 h in
        let (h5, security) = security_sound x d r5 h6 in
        let (h4, dependencies) = deps_sound d r4 h5 in
        let (h3, times) = time_sound d r3 h4 in
        let (h2, enums) = enum_sound d r2 h3 in
        let (h1, numeric) = numeric_sound d r1 h2 in
        record {
          basic = (basic_sound x d new_validation_result h1).1;
          numeric = numeric;
          enums = enums;
          times = times;
          dependencies = dependencies;
          security = security;
          network = network;
        }

    complete : Passes x d → (validate_network_configs x d r6).is_valid ≡ true
    complete p =
        network_complete x d r6
          (security_complete x d r5
            (deps_complete d r4
              (time_complete d r3
                (enum_complete d r2
                  (numeric_complete d r1 (basic_complete x d _ refl p.basic) p.numeric) p.enums)
                p.times)
              p.dependencies)
            p.security)
          p.network

-- ===== src/Validator/Errors.antt =====
-- validator.go: what the errors of a validation show.
use lynx_apollo.Base.{
  ℕ, ◌≡◌, ◌≢◌, refl, Bool, true, false, List, [], ◌∷◌, ◌++◌, Option, none, some, Text, pos, arith,
  if◌then◌else◌, inl, inr, Bool-cases,
}
use lynx_apollo.Conf.{Duration, ServiceConfig, Apollo}
use lynx_apollo.Validator.Result.{
  Externals, Value, ValidationError, ValidationResult, add_error, new_validation_result,
  whole_seconds,
}
use lynx_apollo.Validator.Checks.{
  validate_basic_fields, validate_numeric_ranges, validate_enum_values, validate_time_configs,
  validate_dependencies, validate_security_configs, validate_network_configs, check_merge_strategy,
  check_seconds, check_timeout_order, check_network_timeout, apply_implicit_defaults, validate,
}
use lynx_apollo.Validator.Sound.{validate_iff}

-- The flag says whether the list is empty.
pub data Agrees (r : ValidationResult) : Type 0 where
  passed : r.is_valid ≡ true → r.errors ≡ [] → Agrees r
  failed : r.is_valid ≡ false → r.errors ≢ [] → Agrees r

append-ne-nil : (es : List ValidationError) (e : ValidationError) → es ++ e ∷ [] ≢ []
append-ne-nil [] e h = cc
append-ne-nil (x ∷ es) e h = cc

Agrees-add_error :
    (field message : Text) (value : Value) (r : ValidationResult)
    → Agrees (add_error field message value r)
unfolding add_error
Agrees-add_error field message value r = failed refl (append-ne-nil r.errors _)

Agrees-if : (b : Bool) (r s : ValidationResult) → Agrees r → Agrees s → Agrees (if b then r else s)
Agrees-if true r s p q = p
Agrees-if false r s p q = q

Agrees-new : Agrees new_validation_result
unfolding new_validation_result
Agrees-new = passed refl refl

ruleset agreement = (Agrees-add_error, Agrees-if)

Agrees-basic :
    (x : Externals) (c : Apollo) (r : ValidationResult)
    → Agrees r
    → Agrees (validate_basic_fields x c r)
unfolding validate_basic_fields
Agrees-basic x c r a = search agreement depth 12

Agrees-numeric :
    (c : Apollo) (r : ValidationResult) → Agrees r → Agrees (validate_numeric_ranges c r)
unfolding validate_numeric_ranges
Agrees-numeric c r a = search agreement depth 12

Agrees-merge_strategy :
    (o : Option ServiceConfig) (r : ValidationResult) → Agrees r → Agrees (check_merge_strategy o r)
unfolding check_merge_strategy
Agrees-merge_strategy none r a = a
Agrees-merge_strategy (some s) r a = search agreement

Agrees-enum : (c : Apollo) (r : ValidationResult) → Agrees r → Agrees (validate_enum_values c r)
unfolding validate_enum_values
Agrees-enum c r a = Agrees-merge_strategy c.service_config _ (search agreement)

Agrees-seconds :
    (o : Option Duration) (lo hi : ℕ) (field message : Text) (r : ValidationResult)
    → Agrees r
    → Agrees (check_seconds o lo hi field message r)
unfolding check_seconds
Agrees-seconds none lo hi field message r a = a
Agrees-seconds (some d) lo hi field message r a = search agreement

Agrees-time : (c : Apollo) (r : ValidationResult) → Agrees r → Agrees (validate_time_configs c r)
unfolding validate_time_configs
Agrees-time c r a = Agrees-seconds c.shutdown_timeout _ _ _ _ _ (
    Agrees-seconds c.retry_interval _ _ _ _ _
      (Agrees-seconds c.notification_timeout _ _ _ _ _ (Agrees-seconds c.timeout _ _ _ _ _ a)))

Agrees-timeout_order :
    (t n : Option Duration) (r : ValidationResult) → Agrees r → Agrees (check_timeout_order t n r)
unfolding check_timeout_order
Agrees-timeout_order (some t) (some n) r a = search agreement
Agrees-timeout_order (some t) none r a = a
Agrees-timeout_order none n r a = a

Agrees-dependencies :
    (c : Apollo) (r : ValidationResult) → Agrees r → Agrees (validate_dependencies c r)
unfolding validate_dependencies
Agrees-dependencies c r a = search (agreement, Agrees-timeout_order) depth 12

Agrees-security :
    (x : Externals) (c : Apollo) (r : ValidationResult)
    → Agrees r
    → Agrees (validate_security_configs x c r)
unfolding validate_security_configs
Agrees-security x c r a = search agreement depth 12

Agrees-network_timeout :
    (x : Externals) (o : Option Duration) (r : ValidationResult)
    → Agrees r
    → Agrees (check_network_timeout x o r)
unfolding check_network_timeout
Agrees-network_timeout x none r a = a
Agrees-network_timeout x (some d) r a = search agreement depth 12

Agrees-network :
    (x : Externals) (c : Apollo) (r : ValidationResult)
    → Agrees r
    → Agrees (validate_network_configs x c r)
unfolding validate_network_configs
Agrees-network x c r a = search (agreement, Agrees-network_timeout) depth 12

-- The result is valid with no error, or invalid with at least one: the caller that reports the first
-- error of an invalid result finds it. This holds for a nil configuration too.
pub validate-Agrees : (x : Externals) (config : Option Apollo) → Agrees (validate x config).1
unfolding validate
validate-Agrees x none = Agrees-add_error _ _ _ _
validate-Agrees x (some config) = Agrees-network x c _ (
    Agrees-security x c _ (
      Agrees-dependencies c _
        (Agrees-time c _ (Agrees-enum c _ (Agrees-numeric c _ (Agrees-basic x c _ Agrees-new))))))
  where
    c : Apollo
    c = apply_implicit_defaults config

-- A retry interval below one second is refused, although the lower bound is 100 ms: the check drops
-- the nanoseconds.
pub retry_interval_sub_second :
    (x : Externals) (c : Apollo) (n : ℕ)
    → c.retry_interval ≡ some (record { seconds = pos 0; nanos = pos n })
    → (validate x (some c)).1.is_valid ≡ false
unfolding apply_implicit_defaults whole_seconds
retry_interval_sub_second x c n e = elim (Bool-cases (validate x (some c)).1.is_valid) [
  | inl valid ↦ absurd (ground (arith, ((validate_iff x c).0 valid).times.retry_within))
  | inr invalid ↦ invalid
]

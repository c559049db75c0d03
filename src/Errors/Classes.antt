-- ===== src/Errors/Classes.antt =====
-- errors.go: what the classification and the wrapping of errors promise.
use lynx_apollo.Base.{
  Text, codes, text_eq, text_eq-eq, text_eq_refl, contains, contains-append_left, contains_refl,
  Bool, true, false, ◌≡◌, ◌↔◌, refl, ap, List, [], ◌∷◌, ◌++◌, Option, none, some, arith,
  if◌then◌else◌,
}
use lynx_apollo.Errors.{
  ErrorCode, GoError, Cause, code_text, code_eq, is_config_error, is_init_error, is_client_error,
  is_network_error, is_retry_error, errors_is, error_text, wrap_error, unwrap, plain, apollo,
  wrapped, config_invalid, config_missing, config_validation, init_failed, already_initialized,
  not_initialized, client_failed, client_init_failed, client_destroyed, config_not_found,
  config_get_failed, config_watch_failed, notification_failed, notification_timeout,
  health_check_failed, health_check_timeout, network_error, timeout, connection_failed,
  retry_exhausted, circuit_breaker_open, metrics_failed, shutdown_failed, shutdown_timeout,
}

abbrev all_codes : List ErrorCode
all_codes =
    config_invalid ∷ config_missing ∷ config_validation ∷ init_failed ∷ already_initialized
    ∷ not_initialized ∷ client_failed ∷ client_init_failed ∷ client_destroyed ∷ config_not_found
    ∷ config_get_failed ∷ config_watch_failed ∷ notification_failed ∷ notification_timeout
    ∷ health_check_failed ∷ health_check_timeout ∷ network_error ∷ timeout ∷ connection_failed
    ∷ retry_exhausted ∷ circuit_breaker_open ∷ metrics_failed ∷ shutdown_failed ∷ shutdown_timeout
    ∷ []

find_code : Text → List ErrorCode → Option ErrorCode
find_code t [] = none
find_code t (c ∷ cs) = if text_eq (code_text c) t then some c else find_code t cs

-- The texts of the codes can be told apart.
find_code-code_text : (c : ErrorCode) → find_code (code_text c) all_codes ≡ some c
unfolding find_code code_text text_eq
find_code-code_text config_invalid = refl
find_code-code_text _ = refl

code_text_inj : (c d : ErrorCode) → code_text c ≡ code_text d → c ≡ d
code_text_inj c d e =
    cc (find_code-code_text c, find_code-code_text d, ap (λ t. find_code t all_codes) e)

-- Comparing the texts of two codes decides whether they are one code.
pub code_eq_iff : (c d : ErrorCode) → (code_eq c d ≡ true) ↔ (c ≡ d)
unfolding code_eq
code_eq_iff c d =
    (λ h. code_text_inj c d (text_eq-eq _ _ h), λ e. rw e (text_eq_refl (code_text d)))

-- How many of the five classes an error is in.
abbrev pub classes : GoError → List Bool
classes e =
    is_config_error e
    ∷ is_init_error e
    ∷ is_client_error e
    ∷ is_network_error e
    ∷ is_retry_error e
    ∷ []

abbrev pub at_most_one : List Bool → Bool
at_most_one [] = true
at_most_one (true ∷ bs) = none_of bs
  where
    none_of : List Bool → Bool
    none_of [] = true
    none_of (true ∷ bs) = false
    none_of (false ∷ bs) = none_of bs
at_most_one (false ∷ bs) = at_most_one bs

classes_of_code :
    (c : ErrorCode) (m : Text) (cause : Cause) (x : List (Text × Text))
    → at_most_one (classes (apollo c m cause x)) ≡ true
unfolding is_config_error is_init_error is_client_error is_network_error is_retry_error
classes_of_code config_invalid m cause x = refl
classes_of_code _ m cause x = refl

-- No error is in two of the classes configuration, initialisation, client, network and retry.
pub classes_disjoint : (e : GoError) → at_most_one (classes e) ≡ true
unfolding is_config_error is_init_error is_client_error is_network_error is_retry_error
classes_disjoint (plain s) = refl
classes_disjoint (wrapped pre e) = refl
classes_disjoint (apollo c m cause x) = classes_of_code c m cause x

-- Wrapping keeps the wrapped error: it is what `Unwrap` returns, `errors.Is` still finds whatever
-- it found in it, and its text is part of the new text.
pub wrap_error_keeps :
    (e target : GoError) (code : ErrorCode) (message : Text)
    → let w = wrap_error (some e) code message in
      (unwrap w ≡ some e)
      × (errors_is e target ≡ true → errors_is w target ≡ true)
      × (contains (error_text w) (error_text e) ≡ true)
unfolding wrap_error unwrap errors_is error_text
wrap_error_keeps e target code message = (
  refl,
  λ h. ground arith,
  contains-append_left (codes "[" ++ (code_text code ++ codes "]")) _ _ (
      contains-append_left (codes " " ++ message) _ _
        (contains-append_left (codes " caused by: ") _ _ (contains_refl (error_text e)))),
)

-- ===== src/Errors.antt =====
-- errors.go: the codes, the structured error and the errors that wrap one another.
pub mod Classes
use lynx_apollo.Base.{
  Text, codes, text_eq, join, Bool, true, false, ◌||◌, List, [], ◌∷◌, ◌++◌, Option, none, some,
  if◌then◌else◌, is_empty,
}
use Prim.Native.String.{String}

-- `ErrorCode` is a string type; the package uses these values alone.
pub data ErrorCode : Type 0 where
  config_invalid config_missing config_validation : ErrorCode
  init_failed already_initialized not_initialized : ErrorCode
  client_failed client_init_failed client_destroyed : ErrorCode
  config_not_found config_get_failed config_watch_failed : ErrorCode
  notification_failed notification_timeout : ErrorCode
  health_check_failed health_check_timeout : ErrorCode
  network_error timeout connection_failed : ErrorCode
  retry_exhausted circuit_breaker_open : ErrorCode
  metrics_failed : ErrorCode
  shutdown_failed shutdown_timeout : ErrorCode

abbrev code_name : ErrorCode → String
code_name config_invalid = "CONFIG_INVALID"
code_name config_missing = "CONFIG_MISSING"
code_name config_validation = "CONFIG_VALIDATION"
code_name init_failed = "INIT_FAILED"
code_name already_initialized = "ALREADY_INITIALIZED"
code_name not_initialized = "NOT_INITIALIZED"
code_name client_failed = "CLIENT_FAILED"
code_name client_init_failed = "CLIENT_INIT_FAILED"
code_name client_destroyed = "CLIENT_DESTROYED"
code_name config_not_found = "CONFIG_NOT_FOUND"
code_name config_get_failed = "CONFIG_GET_FAILED"
code_name config_watch_failed = "CONFIG_WATCH_FAILED"
code_name notification_failed = "NOTIFICATION_FAILED"
code_name notification_timeout = "NOTIFICATION_TIMEOUT"
code_name health_check_failed = "HEALTH_CHECK_FAILED"
code_name health_check_timeout = "HEALTH_CHECK_TIMEOUT"
code_name network_error = "NETWORK_ERROR"
code_name timeout = "TIMEOUT"
code_name connection_failed = "CONNECTION_FAILED"
code_name retry_exhausted = "RETRY_EXHAUSTED"
code_name circuit_breaker_open = "CIRCUIT_BREAKER_OPEN"
code_name metrics_failed = "METRICS_FAILED"
code_name shutdown_failed = "SHUTDOWN_FAILED"
code_name shutdown_timeout = "SHUTDOWN_TIMEOUT"

-- The text of a code.
pub code_text : ErrorCode → Text
code_text c = codes (code_name c)

-- c == d, on the texts.
pub code_eq : ErrorCode → ErrorCode → Bool
unfolding code_text text_eq
code_eq c d = text_eq (code_text c) (code_text d)

-- The entries of `Context`, in the order in which a loop over the map meets them; the values as
-- `%v` prints them.
abbrev pub Context : Type 0
Context = List (Text × Text)

-- The errors of the package. `plain` is a text, `wrapped pre e` is `fmt.Errorf(pre + "%w", e)`.
mutual
  pub data GoError : Type 0 where
    plain : Text → GoError
    wrapped : Text → GoError → GoError
    apollo : ErrorCode → Text → Cause → Context → GoError

  pub data Cause : Type 0 where
    no_cause : Cause
    caused_by : GoError → Cause

abbrev pub as_cause : Option GoError → Cause
as_cause none = no_cause
as_cause (some e) = caused_by e

-- A map's assignment: an old entry keeps its place.
put_context : Text → Text → Context → Context
unfolding text_eq
put_context k v [] = (k, v) ∷ []
put_context k v ((j, w) ∷ m) = if text_eq j k then (k, v) ∷ m else (j, w) ∷ put_context k v m

-- NewApolloError, with WithCause and WithContext on its result.
unfoldable pub new_apollo_error : ErrorCode → Text → GoError
new_apollo_error code message = apollo code message no_cause []

unfoldable pub with_cause : GoError → Option GoError → GoError
with_cause (apollo code message _ context) cause = apollo code message (as_cause cause) context
with_cause e cause = e

pub with_context : GoError → Text → Text → GoError
unfolding put_context
with_context (apollo code message cause context) k v =
    apollo code message cause (put_context k v context)
with_context e k v = e

context_part : Text × Text → Text
context_part (k, v) = k ++ codes "=" ++ v

context_parts : Context → List Text
unfolding context_part
context_parts [] = []
context_parts (kv ∷ m) = context_part kv ∷ context_parts m

-- The last part of `Error`, left out for an empty map.
context_text : Context → List Text
unfolding context_parts join
context_text [] = []
context_text (kv ∷ m) =
    (codes "context: {" ++ (join (codes ", ") (context_parts (kv ∷ m)) ++ codes "}")) ∷ []

-- Error()
unfoldable mutual
  unfolding code_text context_text join

  pub error_text : GoError → Text
  error_text (plain s) = s
  error_text (wrapped pre e) = pre ++ error_text e
  error_text (apollo code message cause context) = join (codes " ") (
      (codes "[" ++ (code_text code ++ codes "]"))
      ∷ message
      ∷ (cause_text cause ++ context_text context))

  pub cause_text : Cause → List Text
  cause_text no_cause = []
  cause_text (caused_by e) = (codes "caused by: " ++ error_text e) ∷ []

-- Unwrap(), of both kinds of wrapping error
unfoldable pub unwrap : GoError → Option GoError
unwrap (plain s) = none
unwrap (wrapped pre e) = some e
unwrap (apollo code message no_cause context) = none
unwrap (apollo code message (caused_by e) context) = some e

-- Is: the same code; an error of another type is never matched.
unfoldable pub apollo_is : GoError → GoError → Bool
unfolding code_eq
apollo_is (apollo c _ _ _) (apollo d _ _ _) = code_eq c d
apollo_is e target = false

-- errors.Is, for a target made by this package: some error of the chain matches it.
unfoldable mutual
  unfolding apollo_is

  pub errors_is : GoError → GoError → Bool
  errors_is (plain s) target = false
  errors_is (wrapped pre e) target = errors_is e target
  errors_is (apollo c m cause x) target =
      apollo_is (apollo c m cause x) target || cause_is cause target

  pub cause_is : Cause → GoError → Bool
  cause_is no_cause target = false
  cause_is (caused_by e) target = errors_is e target

-- isErrorCode: the error itself is looked at, and not what it wraps.
code_among : ErrorCode → List ErrorCode → Bool
unfolding code_eq
code_among c [] = false
code_among c (d ∷ ds) = code_eq c d || code_among c ds

is_error_code : GoError → List ErrorCode → Bool
unfolding code_among
is_error_code (apollo c _ _ _) ds = code_among c ds
is_error_code e ds = false

unfoldable pub is_config_error : GoError → Bool
unfolding is_error_code
is_config_error e = is_error_code e (config_invalid ∷ config_missing ∷ config_validation ∷ [])

unfoldable pub is_init_error : GoError → Bool
unfolding is_error_code
is_init_error e = is_error_code e (init_failed ∷ already_initialized ∷ not_initialized ∷ [])

unfoldable pub is_client_error : GoError → Bool
unfolding is_error_code
is_client_error e = is_error_code e (client_failed ∷ client_init_failed ∷ client_destroyed ∷ [])

unfoldable pub is_network_error : GoError → Bool
unfolding is_error_code
is_network_error e = is_error_code e (network_error ∷ timeout ∷ connection_failed ∷ [])

unfoldable pub is_retry_error : GoError → Bool
unfolding is_error_code
is_retry_error e = is_error_code e (retry_exhausted ∷ circuit_breaker_open ∷ [])

-- The constructors of one code each.
unfoldable pub new_config_error : Text → GoError
unfolding new_apollo_error
new_config_error = new_apollo_error config_invalid

unfoldable pub new_init_error : Text → GoError
unfolding new_apollo_error
new_init_error = new_apollo_error init_failed

unfoldable pub new_client_error : ErrorCode → Text → GoError
unfolding new_apollo_error
new_client_error = new_apollo_error

unfoldable pub new_network_error : Text → GoError
unfolding new_apollo_error
new_network_error = new_apollo_error network_error

unfoldable pub new_timeout_error : Text → GoError
unfolding new_apollo_error
new_timeout_error operation =
    new_apollo_error timeout (codes "operation '" ++ (operation ++ codes "' timed out"))

unfoldable pub new_retry_error : Text → GoError
unfolding new_apollo_error
new_retry_error = new_apollo_error retry_exhausted

unfoldable pub new_health_check_error : Text → GoError
unfolding new_apollo_error
new_health_check_error = new_apollo_error health_check_failed

-- WrapError. The error may be nil.
unfoldable pub wrap_error : Option GoError → ErrorCode → Text → GoError
unfolding new_apollo_error with_cause
wrap_error err code message = with_cause (new_apollo_error code message) err

unfoldable pub wrap_config_error : Option GoError → Text → GoError
unfolding wrap_error
wrap_config_error err = wrap_error err config_invalid

unfoldable pub wrap_init_error : Option GoError → Text → GoError
unfolding wrap_error
wrap_init_error err = wrap_error err init_failed

unfoldable pub wrap_client_error : Option GoError → ErrorCode → Text → GoError
unfolding wrap_error
wrap_client_error = wrap_error

unfoldable pub wrap_network_error : Option GoError → Text → GoError
unfolding wrap_error
wrap_network_error err = wrap_error err network_error

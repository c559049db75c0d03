-- ===== src/Validator/Result.antt =====
-- validator.go: the result of a validation, and what the checks take from elsewhere.
use lynx_apollo.Base.{
  ℕ, ◌+◌, ◌*◌, ◌<◌, ◌≡◌, Bool, true, false, ◌||◌, List, [], ◌∷◌, ◌++◌, Text, literal, if◌then◌else◌,
  ℤ, pos, ltb_ℤ, scale, wrap64, Float, second, join,
}
use lynx_apollo.Conf.{Duration}

-- A value of type `any`.
pub data Value : Type 0 where
  nil : Value
  text : Text → Value
  int : ℤ → Value
  float : Float → Value
  duration : ℤ → Value

pub record ValidationError : Type 0 where
  pub field : Text
  pub message : Text
  pub value : Value

pub record ValidationResult : Type 0 where
  pub is_valid : Bool
  pub errors : List ValidationError

unfoldable pub new_validation_result : ValidationResult
new_validation_result = record { is_valid = true; errors = [] }

unfoldable pub add_error : Text → Text → Value → ValidationResult → ValidationResult
add_error field message value r = record {
  is_valid = false;
  errors = r.errors ++ record { field = field; message = message; value = value } ∷ [];
}

-- if test { result.AddError(…) }
abbrev pub add_error_if : Bool → Text → Text → Value → ValidationResult → ValidationResult
add_error_if test field message value r = if test then add_error field message value r else r

-- What `url.Parse` returns: the scheme of the URL, or an error by its text.
pub data Url : Type 0 where
  scheme : Text → Url
  bad_url : Text → Url

-- `url.Parse`, `Duration.AsDuration` and what `%v` prints. The second is documented to give seconds and nanoseconds
-- together, where that fits an int64 of nanoseconds.
pub record Externals : Type 0 where
  pub parse_url : Text → Url
  pub as_duration : Duration → ℤ
  pub format_value : Value → Text
  pub as_duration-eq :
      (s n : ℕ)
      → s * second + n < 9223372036854775808
      → as_duration (record { seconds = pos s; nanos = pos n }) ≡ pos (s * second + n)

-- time.Duration(d.Seconds) * time.Second, which wraps
unfoldable pub whole_seconds : Duration → ℤ
whole_seconds d = wrap64 (scale second d.seconds)

abbrev pub outside : ℕ → ℕ → ℤ → Bool
outside lo hi d = ltb_ℤ d (pos lo) || ltb_ℤ (pos hi) d

-- ValidationError.Error
unfoldable pub error_message : Externals → ValidationError → Text
unfolding literal
error_message x e =
    literal "validation error for field '"
    ++ (e.field
        ++ (literal "': "
            ++ (e.message ++ (literal " (value: " ++ (x.format_value e.value ++ literal ")")))))

unfoldable pub error_messages : Externals → List ValidationError → List Text
unfolding error_message
error_messages x [] = []
error_messages x (e ∷ es) = error_message x e ∷ error_messages x es

-- ValidationResult.Error
unfoldable pub result_message : Externals → ValidationResult → Text
unfolding error_messages literal join
result_message x r = if r.is_valid then [] else join (literal "; ") (error_messages x r.errors)

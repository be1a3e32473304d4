-- ===== src/Validation/Errors.antt =====
-- The errors of internal/k8s/validation.go and of pkg/apis/configuration/validation. An error of `field.ErrorList` is the call that makes it,
-- `field.Required(path, detail)` and so on, kept as data.
use kubernetes_ingress.Prelude.{ℕ, ℤ, String, List}
use kubernetes_ingress.Parsing.{ParseError}

-- `field.Path`
pub data FieldPath : Type 0 where
  new_path : String → FieldPath
  child : FieldPath → String → FieldPath
  index : FieldPath → ℕ → FieldPath

pub data Detail : Type 0 where
  text : String → Detail
  parse_failed : ParseError → Detail
  related_must_be_set : String → Detail
  related_parse_failed : String → ParseError → Detail
  related_must_be_true : String → Detail
  regex_error : String → String → Detail
  accepted_are : String → List String → Detail
  must_be_equal_to must_start_with : String → Detail
  port_is_forbidden : ℤ → Detail

pub data FieldError : Type 0 where
  required : FieldPath → String → FieldError
  duplicate : FieldPath → String → FieldError
  too_many : FieldPath → ℕ → ℕ → FieldError
  forbidden : FieldPath → Detail → FieldError
  invalid : FieldPath → String → Detail → FieldError
  invalid_int : FieldPath → ℤ → Detail → FieldError
  not_found : FieldPath → String → FieldError

abbrev pub ErrorList : Type 0
ErrorList = List FieldError

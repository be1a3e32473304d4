-- ===== src/CustomResources/Common.antt =====
-- pkg/apis/configuration/validation/common.go.
pub mod Dollars
use Prim.Native.Char.{Char, code}
use mathlib.Core.List.{◌++◌}
use kubernetes_ingress.Prelude.{
  ℕ, suc, String, ◌==◌, starts_with, Bool, true, false, not, ◌&&◌, ◌||◌, Option, none, some, List,
  [], ◌∷◌, any, ltb, leb, eqb, length, if◌then◌else◌,
}
use kubernetes_ingress.Parsing.{Result, ok, err, parse_time, parse_offset, parse_size}
use kubernetes_ingress.Parsing.Strings.{contains, split_n, has_char, ends_with, replace, join_two}
use kubernetes_ingress.Validation.Errors.{
  FieldPath, Detail, text, parse_failed, regex_error, accepted_are, required, forbidden, invalid,
  ErrorList,
}
use kubernetes_ingress.CustomResources.Checks.{Checks, invalid_all}
use kubernetes_ingress.CustomResources.Patterns.{capture_variables, matches_name}

-- `isArgumentName` and `isCookieName` of virtualserver.go
unfoldable pub is_argument_name : String → List String
unfolding matches_name
is_argument_name value =
    if matches_name value
    then []
    else "a valid argument name must consist of alphanumeric characters or '_'" ∷ []

unfoldable pub is_cookie_name : String → List String
unfolding matches_name
is_cookie_name value =
    if matches_name value
    then []
    else "a valid cookie name must consist of alphanumeric characters or '_'" ∷ []

-- `validateVariable`; a map of valid names is the list of its keys.
unfoldable pub validate_variable : String → List String → FieldPath → ErrorList
unfolding contains
validate_variable n_var valid_vars path =
    if contains valid_vars n_var
    then []
    else invalid path n_var (accepted_are n_var valid_vars) ∷ []

-- `validateParameter`
unfoldable pub validate_parameter : String → List String → FieldPath → ErrorList
unfolding contains
validate_parameter n_par valid_params path =
    if contains valid_params n_par
    then []
    else invalid path n_par (accepted_are n_par valid_params) ∷ []

-- `isValidSpecialHeaderLikeVariable`
unfoldable pub is_valid_special_header_like_variable : Checks → String → List String
unfolding replace has_char
is_valid_special_header_like_variable checks value =
    let err_msgs = checks.is_http_header_name (replace b'_' "-" value) in
    if ltb 0 (length err_msgs) || has_char b'-' value
    then "a valid special variable must consists of alphanumeric characters or '_'" ∷ []
    else []

-- `parseSpecialVariable`: the name and the value, or the variable is invalid.
unfoldable pub parse_special_variable : String → Option (String × String)
unfolding split_n join_two
parse_special_variable n_var =
    if starts_with n_var "jwt_header" || starts_with n_var "jwt_claim"
    then elim (split_n b'_' 2 n_var) [
      | a ∷ b ∷ value ∷ [] ↦ some (join_two a b "_", value)
      | _ ↦ none
    ]
    else elim (split_n b'_' 1 n_var) [ a ∷ value ∷ [] ↦ some (a, value) | _ ↦ none ]

-- `validateSpecialVariable`
unfoldable pub validate_special_variable : Checks → Bool → String → FieldPath → ErrorList
unfolding parse_special_variable is_argument_name is_cookie_name
    is_valid_special_header_like_variable invalid_all
validate_special_variable checks is_plus n_var path = elim (parse_special_variable n_var) [
  | none ↦ invalid path n_var (text "is invalid variable") ∷ []
  | some (name, value) ↦
      if name == "arg"
      then invalid_all path n_var (is_argument_name value)
      else if name == "http"
      then invalid_all path n_var (is_valid_special_header_like_variable checks value)
      else if name == "cookie"
      then invalid_all path n_var (is_cookie_name value)
      else if name == "jwt_header" || name == "jwt_claim"
      then (if not is_plus
          then forbidden path (text "is only supported in NGINX Plus") ∷ []
          else invalid_all path n_var (is_valid_special_header_like_variable checks value))
      else invalid path n_var (text "unknown special variable") ∷ []
]

-- The loop of `validateStringWithVariables`: each "$" stands before a "{" that is closed. Reading
-- `str[i+1]` past the end of the text is a panic, `none`.
unfoldable pub dollars_enclosed : String → Option Bool
unfolding has_char
dollars_enclosed String.[] = some true
dollars_enclosed (String.◌∷◌ c String.[]) = if eqb (code c) b'$' then none else some true
dollars_enclosed (String.◌∷◌ c (String.◌∷◌ d s)) =
    let rest = dollars_enclosed (String.◌∷◌ d s) in
    if eqb (code c) b'$'
    then (if eqb (code d) b'{' && has_char b'}' s then rest else some false)
    else rest

-- `validateStringWithVariables`: the errors of the variables of a text.
unfoldable pub validate_variables :
    Checks → Bool → List String → FieldPath → List String → List String → ErrorList
unfolding validate_special_variable validate_variable
validate_variables checks is_plus [] path special_vars valid_vars = []
validate_variables checks is_plus (n_var ∷ n_vars) path special_vars valid_vars =
    let rest = validate_variables checks is_plus n_vars path special_vars valid_vars in
    (if any (λ special_var. starts_with n_var special_var) special_vars
      then validate_special_variable checks is_plus n_var path
      else validate_variable n_var valid_vars path)
    ++ rest

-- `validateStringWithVariables`, where a panic of the loop is `none`.
unfoldable pub checked_string_with_variables :
    Checks → Bool → String → FieldPath → List String → List String → Option ErrorList
unfolding ends_with dollars_enclosed capture_variables validate_variables
checked_string_with_variables checks is_plus str path special_vars valid_vars =
    if ends_with b'$' str
    then some (invalid path str (text "must not end with $") ∷ [])
    else elim (dollars_enclosed str) [
      | none ↦ none
      | some true ↦
          some
            (validate_variables checks is_plus (capture_variables str) path special_vars valid_vars)
      | some false ↦ some (
          invalid path str (text "variables must be enclosed in curly braces, for example ${host}")
          ∷ [])
    ]

-- Its errors, as the other validators use them. The case of a panic stands for nothing that the code
-- does.
unfoldable pub validate_string_with_variables :
    Checks → Bool → String → FieldPath → List String → List String → ErrorList
unfolding checked_string_with_variables
validate_string_with_variables checks is_plus str path special_vars valid_vars =
    elim (checked_string_with_variables checks is_plus str path special_vars valid_vars) [
      | some errs ↦ errs
      | none ↦ []
    ]

-- `validateTime`
unfoldable pub validate_time : String → FieldPath → ErrorList
unfolding parse_time
validate_time time path =
    if time == ""
    then []
    else elim (parse_time time) [ ok _ ↦ [] | err e ↦ invalid path time (parse_failed e) ∷ [] ]

-- `validateOffset`
unfoldable pub validate_offset : String → FieldPath → ErrorList
unfolding parse_offset
validate_offset offset path = if offset == "" then [] else elim (parse_offset offset) [
  | ok _ ↦ []
  | err e ↦
      invalid path offset (
        regex_error
          "must consist of numeric characters followed by a valid size suffix. 'k|K|m|M|g|G"
          "\\d+[kKmMgG]?")
      ∷ []
]

-- `validateSize`
unfoldable pub validate_size : String → FieldPath → ErrorList
unfolding parse_size
validate_size size path = if size == "" then [] else elim (parse_size size) [
  | ok _ ↦ []
  | err e ↦
      invalid path size (
        regex_error "must consist of numeric characters followed by a valid size suffix. 'k|K|m|M"
          "\\d+[kKmM]?")
      ∷ []
]

-- `validateSecretName`
unfoldable pub validate_secret_name : Checks → String → FieldPath → ErrorList
unfolding invalid_all
validate_secret_name checks name path =
    if name == "" then [] else invalid_all path name (checks.is_dns1123_subdomain name)

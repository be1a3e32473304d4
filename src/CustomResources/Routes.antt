-- ===== src/CustomResources/Routes.antt =====
-- pkg/apis/configuration/validation/virtualserver.go: splits, matches, error pages and routes.
pub mod Pages
pub mod Referenced
pub mod Weights
use mathlib.Core.List.{◌++◌}
use kubernetes_ingress.Prelude.{
  ℕ, suc, ◌+◌, ℤ, pos, negsuc, ◌+ℤ◌, int_of, String, ◌==◌, starts_with, Bool, true, false, not,
  ◌||◌, Option, none, some, List, [], ◌∷◌, length, eqb, ltb, if◌then◌else◌,
}
use kubernetes_ingress.Api.{Action, Split, Condition, Match, Route}
use kubernetes_ingress.Parsing.Strings.{contains}
use kubernetes_ingress.Validation.Errors.{
  FieldPath, child, index, text, regex_error, required, forbidden, invalid, ErrorList,
}
use kubernetes_ingress.CustomResources.Checks.{Checks, invalid_all, invalid_int_all}
use kubernetes_ingress.CustomResources.Patterns.{matches_escaped_strings, escaped_strings_err_msg}
use kubernetes_ingress.CustomResources.Common.{is_cookie_name, is_argument_name}
use kubernetes_ingress.CustomResources.Fields.{
  validate_policies, validate_route_path, validate_route_field,
}
use kubernetes_ingress.CustomResources.Actions.{validate_action, count_some}
use Pages.{validate_error_pages}

-- `validVariableNames`
abbrev pub valid_variable_names : List String
valid_variable_names =
    "$args" ∷ "$http2" ∷ "$https" ∷ "$remote_addr" ∷ "$remote_port" ∷ "$query_string" ∷ "$request"
    ∷ "$request_body" ∷ "$request_uri" ∷ "$request_method" ∷ "$scheme" ∷ []

-- `validateVariableName`
unfoldable pub validate_variable_name : String → FieldPath → ErrorList
unfolding contains
validate_variable_name name path =
    if not (starts_with name "$")
    then invalid path name (text "must start with `$`") ∷ []
    else if contains valid_variable_names name
    then []
    else invalid path name (text "is not allowed or is not an NGINX variable") ∷ []

-- `isValidMatchValue`
unfoldable pub is_valid_match_value : String → List String
unfolding matches_escaped_strings
is_valid_match_value value =
    if matches_escaped_strings value then [] else escaped_strings_err_msg ∷ []

-- A text that is set counts one.
unfoldable pub count_set : String → ℕ
count_set s = if s == "" then 0 else 1

-- `validateCondition`
unfoldable pub validate_condition : Checks → Condition → FieldPath → ErrorList
unfolding invalid_all is_cookie_name is_argument_name validate_variable_name is_valid_match_value
    count_set
validate_condition checks condition path =
    (if condition.header == ""
      then []
      else invalid_all (child path "header") condition.header
          (checks.is_http_header_name condition.header))
    ++ ((if condition.cookie == ""
          then []
          else invalid_all (child path "cookie") condition.cookie (is_cookie_name condition.cookie))
        ++ ((if condition.argument == ""
              then []
              else invalid_all (child path "argument") condition.argument
                  (is_argument_name condition.argument))
            ++ ((if condition.variable == ""
                  then []
                  else validate_variable_name condition.variable (child path "variable"))
                ++ ((if eqb
                        (count_set condition.header
                          + count_set condition.cookie
                          + count_set condition.argument
                          + count_set condition.variable)
                        1
                      then []
                      else invalid path "" (
                          text
                            "must specify exactly one of: `header`, `cookie`, `argument` or `variable`")
                        ∷ [])
                    ++ invalid_all (child path "value") condition.value
                        (is_valid_match_value condition.value)))))

unfoldable pub validate_conditions : Checks → ℕ → List Condition → FieldPath → ErrorList
unfolding validate_condition
validate_conditions checks i [] path = []
validate_conditions checks i (c ∷ cs) path =
    let rest = validate_conditions checks (suc i) cs path in
    validate_condition checks c (index path i) ++ rest

-- The sum of the weights, an `int`, from `total`.
unfoldable pub total_weight : ℤ → List Split → ℤ
unfolding ◌+ℤ◌ int_of
total_weight total [] = total
total_weight total (s ∷ splits) = total_weight (int_of (total +ℤ s.weight)) splits

unfoldable pub is_hundred : ℤ → Bool
is_hundred (pos n) = eqb n 100
is_hundred (negsuc n) = false

module _ (checks : Checks) (is_plus : Bool) where
  -- The action of a split, which must be set.
  unfoldable pub validate_split_action :
      Option Action → FieldPath → List String → String → ErrorList
  unfolding validate_action
  validate_split_action none path upstream_names route_path = required path "" ∷ []
  validate_split_action (some action) path upstream_names route_path =
      validate_action checks is_plus action path upstream_names route_path true

  -- The loop of `validateSplits` from index `i`.
  unfoldable pub validate_splits_from :
      ℕ → List Split → FieldPath → List String → String → ErrorList
  unfolding invalid_int_all validate_split_action
  validate_splits_from i [] path upstream_names route_path = []
  validate_splits_from i (s ∷ splits) path upstream_names route_path =
      let rest = validate_splits_from (suc i) splits path upstream_names route_path in
      invalid_int_all (child (index path i) "weight") s.weight
        (checks.is_in_range s.weight (pos 1) (pos 99))
      ++ (validate_split_action s.action (child (index path i) "action") upstream_names route_path
          ++ rest)

  -- `validateSplits`
  unfoldable pub validate_splits : List Split → FieldPath → List String → String → ErrorList
  unfolding validate_splits_from total_weight is_hundred
  validate_splits splits path upstream_names route_path =
      if ltb (length splits) 2
      then invalid path "" (text "must include at least 2 splits") ∷ []
      else validate_splits_from 0 splits path upstream_names route_path
        ++ (if is_hundred (total_weight (pos 0) splits)
            then []
            else invalid path "" (text "the sum of the weights of all splits must be equal to 100")
              ∷ [])

  -- The errors of an action that is set, and of splits that are not empty.
  unfoldable pub validate_optional_action :
      Option Action → FieldPath → List String → String → Bool → ErrorList
  unfolding validate_action
  validate_optional_action none path upstream_names route_path internal = []
  validate_optional_action (some action) path upstream_names route_path internal =
      validate_action checks is_plus action path upstream_names route_path internal

  unfoldable pub validate_optional_splits :
      List Split → FieldPath → List String → String → ErrorList
  unfolding validate_splits
  validate_optional_splits [] path upstream_names route_path = []
  validate_optional_splits (s ∷ splits) path upstream_names route_path =
      validate_splits (s ∷ splits) path upstream_names route_path

  -- `len(splits) > 0` counts one.
  unfoldable pub count_splits : List Split → ℕ
  count_splits [] = 0
  count_splits (_ ∷ _) = 1

  -- `validateMatch`
  unfoldable pub validate_match : Match → FieldPath → List String → String → ErrorList
  unfolding validate_conditions validate_optional_action validate_optional_splits count_some
      count_splits
  validate_match m path upstream_names route_path =
      (if eqb (length m.conditions) 0
        then required (child path "conditions") "must specify at least one condition" ∷ []
        else validate_conditions checks 0 m.conditions (child path "conditions"))
      ++ (validate_optional_action m.action (child path "action") upstream_names route_path true
          ++ (validate_optional_splits m.splits (child path "splits") upstream_names route_path
              ++ (if eqb (count_some m.action + count_splits m.splits) 1
                  then []
                  else invalid path "" (text "must specify exactly one of `action` or `splits`")
                    ∷ [])))

  unfoldable pub validate_matches : ℕ → List Match → FieldPath → List String → String → ErrorList
  unfolding validate_match
  validate_matches i [] path upstream_names route_path = []
  validate_matches i (m ∷ ms) path upstream_names route_path =
      let rest = validate_matches (suc i) ms path upstream_names route_path in
      validate_match m (index path i) upstream_names route_path ++ rest

  -- The errors of the field `route`, which a subroute may not have.
  unfoldable pub validate_route_reference : String → FieldPath → Bool → ErrorList
  unfolding validate_route_field
  validate_route_reference route path is_route_field_forbidden =
      if route == ""
      then []
      else if is_route_field_forbidden
      then forbidden path (text "is not allowed") ∷ []
      else validate_route_field checks route path

  -- `fieldCount` of `validateRoute`
  unfoldable pub field_count : Route → Bool → ℕ
  unfolding count_some count_splits
  field_count route is_route_field_forbidden =
      count_some route.action
      + count_splits route.splits
      + (if route.route == "" then 0 else if is_route_field_forbidden then 0 else 1)

  -- `validateRoute`
  unfoldable pub validate_route : Route → FieldPath → List String → Bool → String → ErrorList
  unfolding validate_route_path validate_policies validate_optional_action validate_optional_splits
      validate_matches validate_error_pages validate_route_reference field_count
  validate_route route path upstream_names is_route_field_forbidden namespace =
      validate_route_path checks route.path (child path "path")
      ++ (validate_policies checks route.policies (child path "policies") namespace
          ++ (validate_optional_action route.action (child path "action") upstream_names route.path
                false
              ++ (validate_optional_splits route.splits (child path "splits") upstream_names
                    route.path
                  ++ (validate_matches 0 route.matches (child path "matches") upstream_names
                        route.path
                      ++ (validate_error_pages checks is_plus 0 route.error_pages
                            (child path "errorPages")
                          ++ (validate_route_reference route.route (child path "route")
                                is_route_field_forbidden
                              ++ (if eqb (field_count route is_route_field_forbidden) 1
                                  then []
                                  else invalid path "" (
                                      text (
                                        if is_route_field_forbidden || ltb 0 (length route.matches)
                                        then "must specify exactly one of `action` or `splits`"
                                        else "must specify exactly one of `action`, `splits` or `route`"))
                                    ∷ [])))))))

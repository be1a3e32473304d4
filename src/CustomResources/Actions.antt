-- ===== src/CustomResources/Actions.antt =====
-- pkg/apis/configuration/validation/virtualserver.go: the actions of routes, splits and matches.
pub mod Returns
pub mod Referenced
use mathlib.Core.List.{◌++◌}
use Prim.Native.Char.{Char, code}
use kubernetes_ingress.Prelude.{
  ℕ, suc, ◌+◌, ℤ, pos, String, ◌==◌, starts_with, Bool, true, false, not, ◌||◌, Option, none, some,
  List, [], ◌∷◌, length, eqb, ltb, if◌then◌else◌,
}
use kubernetes_ingress.Api.{
  Action, ActionProxy, ActionRedirect, ActionReturn, ProxyRequestHeaders, ProxyResponseHeaders,
  AddHeader, Header,
}
use kubernetes_ingress.Parsing.Strings.{contains, is_digit}
use kubernetes_ingress.Validation.Errors.{
  FieldPath, child, index, text, regex_error, accepted_are, required, not_found, invalid, ErrorList,
}
use kubernetes_ingress.CustomResources.Checks.{Checks, invalid_all}
use kubernetes_ingress.CustomResources.Patterns.{
  matches_escaped_strings, escaped_strings_fmt, escaped_strings_err_msg,
}
use kubernetes_ingress.CustomResources.Fields.{validate_upstream_name, validate_path}
use Returns.{
  validate_action_redirect, validate_action_return, validate_escaped_string_with_variables,
  valid_redirect_variable_names, return_body_variables, return_body_special_variables,
  action_proxy_header_variables, action_proxy_header_special_variables,
}

-- A pointer that is set counts one.
unfoldable pub count_some : {A : Type 0} → Option A → ℕ
count_some none = 0
count_some (some _) = 1

-- `countActions`
unfoldable pub count_actions : Action → ℕ
unfolding count_some
count_actions action =
    (if action.pass == "" then 0 else 1)
    + count_some action.redirect
    + count_some action.return_
    + count_some action.proxy

-- `validateReferencedUpstream`
unfoldable pub validate_referenced_upstream : Checks → String → FieldPath → List String → ErrorList
unfolding validate_upstream_name contains
validate_referenced_upstream checks name path upstream_names =
    let upstream_errs = validate_upstream_name checks name path in
    if ltb 0 (length upstream_errs)
    then upstream_errs
    else if contains upstream_names name
    then []
    else not_found path name ∷ []

-- `validateStringNoVariables`: a "$" that is not the last character stands before a digit.
unfoldable pub dollars_numbered : String → Bool
unfolding is_digit
dollars_numbered String.[] = true
dollars_numbered (String.◌∷◌ c String.[]) = true
dollars_numbered (String.◌∷◌ c (String.◌∷◌ d s)) =
    let rest = dollars_numbered (String.◌∷◌ d s) in
    if eqb (code c) b'$' then (if is_digit d then rest else false) else rest

unfoldable pub validate_string_no_variables : String → FieldPath → ErrorList
unfolding dollars_numbered
validate_string_no_variables s path =
    if dollars_numbered s
    then []
    else invalid path s (text "`$` character can be only followed by a number") ∷ []

-- `validateActionProxyRewritePath`
unfoldable pub validate_action_proxy_rewrite_path : String → FieldPath → ErrorList
unfolding validate_string_no_variables validate_path
validate_action_proxy_rewrite_path rewrite_path path =
    if rewrite_path == ""
    then []
    else validate_string_no_variables rewrite_path path ++ validate_path rewrite_path path

-- `validateActionProxyRewritePathForRegexp`
unfoldable pub validate_action_proxy_rewrite_path_for_regexp : String → FieldPath → ErrorList
unfolding validate_string_no_variables matches_escaped_strings
validate_action_proxy_rewrite_path_for_regexp rewrite_path path =
    if rewrite_path == ""
    then []
    else validate_string_no_variables rewrite_path path
      ++ (if matches_escaped_strings rewrite_path
          then []
          else invalid path rewrite_path (regex_error escaped_strings_err_msg escaped_strings_fmt)
            ∷ [])

-- `validIgnoreHeaders`
abbrev pub valid_ignore_headers : List String
valid_ignore_headers =
    "X-Accel-Redirect" ∷ "X-Accel-Expires" ∷ "X-Accel-Limit-Rate" ∷ "X-Accel-Buffering"
    ∷ "X-Accel-Charset" ∷ "Expires" ∷ "Cache-Control" ∷ "Set-Cookie" ∷ "Vary" ∷ []

-- The loop of `validateIgnoreHeaders` from index `i`.
unfoldable pub validate_ignore_headers : ℕ → List String → FieldPath → ErrorList
unfolding contains
validate_ignore_headers i [] path = []
validate_ignore_headers i (h ∷ hs) path =
    let rest = validate_ignore_headers (suc i) hs path in
    (if contains valid_ignore_headers h
      then []
      else invalid (index path i) h (accepted_are h valid_ignore_headers) ∷ [])
    ++ rest

-- The loop over header names that are passed or hidden.
unfoldable pub validate_header_names : Checks → ℕ → List String → FieldPath → ErrorList
unfolding invalid_all
validate_header_names checks i [] path = []
validate_header_names checks i (h ∷ hs) path =
    let rest = validate_header_names checks (suc i) hs path in
    invalid_all (index path i) h (checks.is_http_header_name h) ++ rest

module _ (checks : Checks) (is_plus : Bool) where
  -- `validateActionProxyHeader`
  unfoldable pub validate_action_proxy_header : Header → FieldPath → ErrorList
  unfolding invalid_all validate_escaped_string_with_variables
  validate_action_proxy_header h path =
      (if h.name == "" then required (child path "name") "" ∷ [] else [])
      ++ (invalid_all (child path "name") h.name (checks.is_http_header_name h.name)
          ++ validate_escaped_string_with_variables checks is_plus h.value (child path "value")
              action_proxy_header_special_variables action_proxy_header_variables)

  unfoldable pub validate_set_headers : ℕ → List Header → FieldPath → ErrorList
  unfolding validate_action_proxy_header
  validate_set_headers i [] path = []
  validate_set_headers i (h ∷ hs) path =
      let rest = validate_set_headers (suc i) hs path in
      validate_action_proxy_header h (index path i) ++ rest

  unfoldable pub validate_add_headers : ℕ → List AddHeader → FieldPath → ErrorList
  unfolding validate_action_proxy_header
  validate_add_headers i [] path = []
  validate_add_headers i (h ∷ hs) path =
      let rest = validate_add_headers (suc i) hs path in
      validate_action_proxy_header h.header (index path i) ++ rest

  -- `validateActionProxyRequestHeaders`
  unfoldable pub validate_action_proxy_request_headers :
      Option ProxyRequestHeaders → FieldPath → ErrorList
  unfolding validate_set_headers
  validate_action_proxy_request_headers none path = []
  validate_action_proxy_request_headers (some request_headers) path =
      validate_set_headers 0 request_headers.set path

  -- `validateActionProxyResponseHeaders`
  unfoldable pub validate_action_proxy_response_headers :
      Option ProxyResponseHeaders → FieldPath → ErrorList
  unfolding validate_header_names validate_add_headers validate_ignore_headers
  validate_action_proxy_response_headers none path = []
  validate_action_proxy_response_headers (some response_headers) path =
      validate_header_names checks 0 response_headers.hide (child path "hide")
      ++ (validate_header_names checks 0 response_headers.pass (child path "pass")
          ++ (validate_add_headers 0 response_headers.add (child path "add")
              ++ validate_ignore_headers 0 response_headers.ignore (child path "ignore")))

  -- `validateActionProxy`
  unfoldable pub validate_action_proxy :
      ActionProxy → FieldPath → List String → String → Bool → ErrorList
  unfolding validate_referenced_upstream validate_action_proxy_request_headers
      validate_action_proxy_response_headers validate_action_proxy_rewrite_path
      validate_action_proxy_rewrite_path_for_regexp
  validate_action_proxy p path upstream_names route_path internal =
      validate_referenced_upstream checks p.upstream (child path "upstream") upstream_names
      ++ (validate_action_proxy_request_headers p.request_headers (child path "requestHeaders")
          ++ (validate_action_proxy_response_headers p.response_headers
                (child path "responseHeaders")
              ++ (if starts_with route_path "~" || internal
                  then validate_action_proxy_rewrite_path_for_regexp p.rewrite_path
                      (child path "rewritePath")
                  else validate_action_proxy_rewrite_path p.rewrite_path
                      (child path "rewritePath"))))

  -- The parts of `validateAction` for the fields that are set.
  unfoldable pub validate_pass : String → FieldPath → List String → ErrorList
  unfolding validate_referenced_upstream
  validate_pass pass path upstream_names =
      if pass == "" then [] else validate_referenced_upstream checks pass path upstream_names

  unfoldable pub validate_set_redirect : Option ActionRedirect → FieldPath → ErrorList
  unfolding validate_action_redirect
  validate_set_redirect none path = []
  validate_set_redirect (some redirect) path =
      validate_action_redirect checks is_plus redirect path valid_redirect_variable_names

  unfoldable pub validate_set_return : Option ActionReturn → FieldPath → ErrorList
  unfolding validate_action_return
  validate_set_return none path = []
  validate_set_return (some r) path =
      validate_action_return checks is_plus r path return_body_special_variables
        return_body_variables

  unfoldable pub validate_set_proxy :
      Option ActionProxy → FieldPath → List String → String → Bool → ErrorList
  unfolding validate_action_proxy
  validate_set_proxy none path upstream_names route_path internal = []
  validate_set_proxy (some p) path upstream_names route_path internal =
      validate_action_proxy p path upstream_names route_path internal

  -- `validateAction`
  unfoldable pub validate_action : Action → FieldPath → List String → String → Bool → ErrorList
  unfolding count_actions validate_pass validate_set_redirect validate_set_return validate_set_proxy
  validate_action action path upstream_names route_path internal =
      if eqb (count_actions action) 1
      then validate_pass action.pass (child path "pass") upstream_names
        ++ (validate_set_redirect action.redirect (child path "redirect")
            ++ (validate_set_return action.return_ (child path "return")
                ++ validate_set_proxy action.proxy (child path "proxy") upstream_names route_path
                    internal))
      else required path
          "action must specify exactly one of `pass`, `redirect`, `return` or `proxy`"
        ∷ []

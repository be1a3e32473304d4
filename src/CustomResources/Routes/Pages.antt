-- ===== src/CustomResources/Routes/Pages.antt =====
-- pkg/apis/configuration/validation/virtualserver.go: the error pages of a route.
use mathlib.Core.List.{◌++◌}
use kubernetes_ingress.Prelude.{
  ℕ, suc, ◌+◌, ℤ, pos, String, ◌==◌, Bool, none, some, List, [], ◌∷◌, length, eqb, if◌then◌else◌,
}
use kubernetes_ingress.Api.{Header, ErrorPage, ErrorPageReturn, ActionRedirect}
use kubernetes_ingress.Validation.Errors.{
  FieldPath, child, index, regex_error, required, invalid, ErrorList,
}
use kubernetes_ingress.CustomResources.Checks.{Checks, invalid_all, invalid_int_all}
use kubernetes_ingress.CustomResources.Patterns.{
  matches_escaped_strings, escaped_strings_fmt, escaped_strings_err_msg,
}
use kubernetes_ingress.CustomResources.Common.{validate_string_with_variables}
use kubernetes_ingress.CustomResources.Actions.{count_some}
use kubernetes_ingress.CustomResources.Actions.Returns.{
  validate_action_return, validate_action_redirect,
}

-- `errorPageHasRequiredFields`
unfoldable pub error_page_has_required_fields : ErrorPage → Bool
unfolding count_some
error_page_has_required_fields error_page =
    eqb (count_some error_page.return_ + count_some error_page.redirect) 1

-- The loop over the codes of an error page.
unfoldable pub validate_codes : Checks → ℕ → List ℤ → FieldPath → ErrorList
unfolding invalid_int_all
validate_codes checks i [] path = []
validate_codes checks i (c ∷ cs) path =
    let rest = validate_codes checks (suc i) cs path in
    invalid_int_all (index path i) c (checks.is_in_range c (pos 300) (pos 599)) ++ rest

-- `errorPageReturnBodyVariable` and `errorPageHeaderValueVariables`
abbrev pub error_page_variables : List String
error_page_variables = "upstream_status" ∷ []

-- `validErrorPageRedirectVariables`
abbrev pub valid_error_page_redirect_variables : List String
valid_error_page_redirect_variables = "scheme" ∷ "http_x_forwarded_proto" ∷ []

module _ (checks : Checks) (is_plus : Bool) where
  -- `validateErrorPageHeader`
  unfoldable pub validate_error_page_header : Header → FieldPath → ErrorList
  unfolding invalid_all matches_escaped_strings validate_string_with_variables
  validate_error_page_header h path =
      (if h.name == "" then required (child path "name") "" ∷ [] else [])
      ++ (invalid_all (child path "name") h.name (checks.is_http_header_name h.name)
          ++ ((if matches_escaped_strings h.value
                then []
                else invalid (child path "value") h.value
                    (regex_error escaped_strings_err_msg escaped_strings_fmt)
                  ∷ [])
              ++ validate_string_with_variables checks is_plus h.value (child path "value") []
                  error_page_variables))

  unfoldable pub validate_error_page_headers : ℕ → List Header → FieldPath → ErrorList
  unfolding validate_error_page_header
  validate_error_page_headers i [] path = []
  validate_error_page_headers i (h ∷ hs) path =
      let rest = validate_error_page_headers (suc i) hs path in
      validate_error_page_header h (index path i) ++ rest

  -- `validateErrorPageReturn`
  unfoldable pub validate_error_page_return : ErrorPageReturn → FieldPath → ErrorList
  unfolding validate_action_return validate_error_page_headers
  validate_error_page_return r path =
      validate_action_return checks is_plus r.action_return path [] error_page_variables
      ++ validate_error_page_headers 0 r.headers (child path "headers")

  -- `validateErrorPageRedirect`
  unfoldable pub validate_error_page_redirect : ActionRedirect → FieldPath → ErrorList
  unfolding validate_action_redirect
  validate_error_page_redirect r path =
      validate_action_redirect checks is_plus r path valid_error_page_redirect_variables

  -- `validateErrorPage`
  unfoldable pub validate_error_page : ErrorPage → FieldPath → ErrorList
  unfolding error_page_has_required_fields validate_codes validate_error_page_return
      validate_error_page_redirect
  validate_error_page error_page path =
      let return_errors : ErrorList = elim error_page.return_ [
        | none ↦ []
        | some r ↦ validate_error_page_return r (child path "return")
      ] in
      let redirect_errors : ErrorList = elim error_page.redirect [
        | none ↦ []
        | some r ↦ validate_error_page_redirect r (child path "redirect")
      ] in
      if error_page_has_required_fields error_page
      then (if eqb (length error_page.codes) 0
          then required (child path "codes") "must include at least 1 status code in `codes`" ∷ []
          else validate_codes checks 0 error_page.codes (child path "codes")
            ++ (return_errors ++ redirect_errors))
      else required path "must specify exactly one of `redirect` or `return`" ∷ []

  -- The loop of `validateRoute` over the error pages from index `i`.
  unfoldable pub validate_error_pages : ℕ → List ErrorPage → FieldPath → ErrorList
  unfolding validate_error_page
  validate_error_pages i [] path = []
  validate_error_pages i (e ∷ es) path =
      let rest = validate_error_pages (suc i) es path in
      validate_error_page e (index path i) ++ rest

-- ===== src/CustomResources/Fields.antt =====
-- pkg/apis/configuration/validation/virtualserver.go: the hosts, policies, TLS and other fields that
-- VirtualServers share with their parts.
use mathlib.Core.List.{◌++◌}
use Prim.Native.String.{◌++◌ as ◌<>◌}
use kubernetes_ingress.Prelude.{
  ℕ, suc, ℤ, pos, negsuc, less, String, ◌==◌, starts_with, not, ◌&&◌, ◌||◌, Option, none, some,
  List, [], ◌∷◌, StrMap, eqb, if◌then◌else◌,
}
use kubernetes_ingress.Api.{PolicyReference, Header, Tls, TlsRedirect}
use kubernetes_ingress.Parsing.Strings.{contains, trim_prefix}
use kubernetes_ingress.Validation.Errors.{
  FieldPath, child, index, text, regex_error, required, duplicate, invalid, invalid_int, ErrorList,
}
use kubernetes_ingress.CustomResources.Checks.{Checks, invalid_all}
use kubernetes_ingress.CustomResources.Patterns.{
  matches_header_value, matches_path, matches_escaped_strings, escaped_strings_fmt,
  escaped_strings_err_msg,
}
use kubernetes_ingress.CustomResources.Common.{validate_secret_name}

-- `validateHost`
unfoldable pub validate_host : Checks → String → FieldPath → ErrorList
unfolding invalid_all
validate_host checks host path =
    if host == ""
    then required path "" ∷ []
    else invalid_all path host (checks.is_dns1123_subdomain host)

-- The namespace of a policy, by default that of the resource.
unfoldable pub policy_key : String → PolicyReference → String
policy_key namespace p = (if p.namespace == "" then namespace else p.namespace) <> "/" <> p.name

-- The errors of one reference but for its being repeated.
unfoldable pub validate_policy : Checks → PolicyReference → FieldPath → ErrorList
unfolding invalid_all
validate_policy checks p path =
    (if p.name == ""
      then required (child path "name") "" ∷ []
      else invalid_all (child path "name") p.name (checks.is_dns1123_subdomain p.name))
    ++ (if p.namespace == ""
        then []
        else invalid_all (child path "namespace") p.namespace (checks.is_dns1123_label p.namespace))

-- The loop of `validatePolicies` from index `i`, with the keys seen.
unfoldable pub validate_policies_from :
    Checks → ℕ → List String → List PolicyReference → FieldPath → String → ErrorList
unfolding policy_key validate_policy contains
validate_policies_from checks i policy_keys [] path namespace = []
validate_policies_from checks i policy_keys (p ∷ ps) path namespace =
    let key = policy_key namespace p in
    let seen = contains policy_keys key in
    let rest =
      validate_policies_from checks (suc i) (if seen then policy_keys else key ∷ policy_keys) ps
        path namespace in
    (if seen then duplicate (index path i) key ∷ [] else [])
    ++ (validate_policy checks p (index path i) ++ rest)

-- `validatePolicies`
unfoldable pub validate_policies : Checks → List PolicyReference → FieldPath → String → ErrorList
unfolding validate_policies_from
validate_policies checks policies path namespace =
    validate_policies_from checks 0 [] policies path namespace

-- `validateRedirectStatusCode`
unfoldable pub validate_redirect_status_code : ℤ → FieldPath → ErrorList
validate_redirect_status_code (pos code) path =
    if eqb code 301 || (eqb code 302 || (eqb code 307 || eqb code 308))
    then []
    else invalid_int path (pos code)
        (text "status code out of accepted range. accepted values are '301', '302', '307', '308'")
      ∷ []
validate_redirect_status_code (negsuc n) path =
    invalid_int path (negsuc n)
      (text "status code out of accepted range. accepted values are '301', '302', '307', '308'")
    ∷ []

-- `validateTLSRedirect`
unfoldable pub validate_tls_redirect : Option TlsRedirect → FieldPath → ErrorList
unfolding validate_redirect_status_code
validate_tls_redirect none path = []
validate_tls_redirect (some redirect) path =
    let code_errors : ErrorList = elim redirect.code [
      | none ↦ []
      | some code ↦ validate_redirect_status_code code (child path "code")
    ] in
    code_errors
    ++ (if not (redirect.based_on == "")
          && (not (redirect.based_on == "scheme") && not (redirect.based_on == "x-forwarded-proto"))
        then invalid (child path "basedOn") redirect.based_on
            (text "accepted values are 'scheme', 'x-forwarded-proto'")
          ∷ []
        else [])

-- `validateTLS`
unfoldable pub validate_tls : Checks → Option Tls → FieldPath → ErrorList
unfolding validate_secret_name validate_tls_redirect
validate_tls checks none path = []
validate_tls checks (some tls) path =
    validate_secret_name checks tls.secret (child path "secret")
    ++ validate_tls_redirect tls.redirect (child path "redirect")

-- `validatePositiveIntOrZero`
unfoldable pub validate_positive_int_or_zero : ℤ → FieldPath → ErrorList
unfolding less
validate_positive_int_or_zero n path =
    if less n (pos 0) then invalid_int path n (text "must be positive") ∷ [] else []

-- `validatePositiveIntOrZeroFromPointer`
unfoldable pub validate_positive_int_or_zero_from_pointer : Option ℤ → FieldPath → ErrorList
unfolding less
validate_positive_int_or_zero_from_pointer none path = []
validate_positive_int_or_zero_from_pointer (some n) path =
    if less n (pos 0) then invalid_int path n (text "must be positive or zero") ∷ [] else []

-- `isValidHeaderValue`
unfoldable pub is_valid_header_value : String → List String
unfolding matches_header_value
is_valid_header_value s =
    if matches_header_value s
    then []
    else "a valid header must have all '\"' escaped and must not contain any '$' or end with an unescaped '\\'"
      ∷ []

-- `validateHeader`
unfoldable pub validate_header : Checks → Header → FieldPath → ErrorList
unfolding invalid_all is_valid_header_value
validate_header checks h path =
    (if h.name == "" then required (child path "name") "" ∷ [] else [])
    ++ (invalid_all (child path "name") h.name (checks.is_http_header_name h.name)
        ++ invalid_all (child path "value") h.value (is_valid_header_value h.value))

-- `validateDNS1035Label`
unfoldable pub validate_dns1035_label : Checks → String → FieldPath → ErrorList
unfolding invalid_all
validate_dns1035_label checks name path =
    if name == ""
    then required path "" ∷ []
    else invalid_all path name (checks.is_dns1035_label name)

-- `validateUpstreamName` and `validateServiceName`
unfoldable pub validate_upstream_name : Checks → String → FieldPath → ErrorList
unfolding validate_dns1035_label
validate_upstream_name checks name path = validate_dns1035_label checks name path

unfoldable pub validate_service_name : Checks → String → FieldPath → ErrorList
unfolding validate_dns1035_label
validate_service_name checks name path = validate_dns1035_label checks name path

-- `validateRouteField`
unfoldable pub validate_route_field : Checks → String → FieldPath → ErrorList
unfolding invalid_all
validate_route_field checks value path = invalid_all path value (checks.is_qualified_name value)

-- `validatePath`
unfoldable pub validate_path : String → FieldPath → ErrorList
unfolding matches_path
validate_path p path =
    if p == ""
    then required path "" ∷ []
    else if matches_path p
    then []
    else invalid path p (
        regex_error
          "must start with / and must not include any whitespace character, `{`, `}` or `;`"
          "/[^\\s{};]*")
      ∷ []

-- `validateRegexPath`
unfoldable pub validate_regex_path : Checks → String → FieldPath → ErrorList
unfolding matches_escaped_strings
validate_regex_path checks p path = elim (checks.compile p) [
  | some e ↦ invalid path p (text ("must be a valid regular expression: " <> e)) ∷ []
  | none ↦
      if matches_escaped_strings p
      then []
      else invalid path p (regex_error escaped_strings_err_msg escaped_strings_fmt) ∷ []
]

-- `validateRoutePath`
unfoldable pub validate_route_path : Checks → String → FieldPath → ErrorList
unfolding validate_regex_path validate_path trim_prefix
validate_route_path checks p path =
    if p == ""
    then required path "" ∷ []
    else if starts_with p "~"
    then validate_regex_path checks p path
    else if starts_with p "/"
    then validate_path p path
    else if starts_with p "="
    then validate_path (trim_prefix b'=' p) path
    else invalid path p (text "must start with /, ~ or =") ∷ []

-- `isValidLabelName` and `validateLabels`, over the labels in the order of the map's iteration.
unfoldable pub validate_labels : Checks → StrMap String → FieldPath → ErrorList
unfolding invalid_all
validate_labels checks [] path = []
validate_labels checks ((label_name, label_value) ∷ labels) path =
    let rest = validate_labels checks labels path in
    invalid_all path label_name (checks.is_qualified_name label_name)
    ++ (invalid_all path label_value (checks.is_valid_label_value label_value) ++ rest)

-- ===== src/CustomResources/Policies.antt =====
-- pkg/apis/configuration/validation/policy.go.
pub mod Chosen
use Prim.Native.Char.{code}
use mathlib.Core.List.{◌++◌}
use kubernetes_ingress.Prelude.{
  ℕ, suc, ◌+◌, ℤ, pos, negsuc, leq, less, String, ◌==◌, starts_with, Bool, true, false, not, ◌&&◌,
  ◌||◌, Option, none, some, List, [], ◌∷◌, any, leb, eqb, if◌then◌else◌,
}
use kubernetes_ingress.Api.Alpha.{
  AccessControl, RateLimit, JwtAuth, IngressMtls, EgressMtls, PolicySpec,
}
use kubernetes_ingress.Parsing.{Result, ok, err}
use kubernetes_ingress.Parsing.Signed.{parse_int}
use kubernetes_ingress.Parsing.Strings.{contains, split, is_digit, trim_suffix, to_lower_units}
use kubernetes_ingress.Validation.Errors.{
  FieldPath, new_path, child, index, text, regex_error, accepted_are, required, forbidden, invalid,
  invalid_int, ErrorList,
}
use kubernetes_ingress.CustomResources.Checks.{Checks, invalid_all}
use kubernetes_ingress.CustomResources.Patterns.{
  matches_escaped_strings, matches_header_value, escaped_strings_fmt, escaped_strings_err_msg,
}
use kubernetes_ingress.CustomResources.Common.{
  validate_size, validate_secret_name, validate_parameter, validate_special_variable,
  validate_string_with_variables,
}
use kubernetes_ingress.CustomResources.Fields.{validate_positive_int_or_zero}
use kubernetes_ingress.CustomResources.Actions.{count_some}

-- `validatePositiveInt`
unfoldable pub validate_positive_int : ℤ → FieldPath → ErrorList
unfolding leq
validate_positive_int n path =
    if leq n (pos 0) then invalid_int path n (text "must be positive") ∷ [] else []

-- An int behind a pointer that is set.
unfoldable pub validate_set_int : (ℤ → FieldPath → ErrorList) → Option ℤ → FieldPath → ErrorList
validate_set_int validate none path = []
validate_set_int validate (some n) path = validate n path

-- `rateRegexp.MatchString`: `[1-9]\d*r/[sSmM]`
unfoldable pub matches_rate_tail : String → Bool
unfolding is_digit
matches_rate_tail String.[] = false
matches_rate_tail (String.◌∷◌ c s) =
    let rest = matches_rate_tail s in
    if is_digit c
    then rest
    else eqb (code c) b'r' && (s == "/s" || (s == "/S" || (s == "/m" || s == "/M")))

unfoldable pub matches_rate : String → Bool
unfolding matches_rate_tail
matches_rate String.[] = false
matches_rate (String.◌∷◌ c s) = (leb b'1' (code c) && leb (code c) b'9') && matches_rate_tail s

-- `validateRate`
unfoldable pub validate_rate : String → FieldPath → ErrorList
unfolding matches_rate
validate_rate rate path =
    if rate == ""
    then required path "" ∷ []
    else if matches_rate rate
    then []
    else invalid path rate (
        regex_error "must consist of numeric characters followed by a valid rate suffix. 'r/s|r/m"
          "[1-9]\\d*r/[sSmM]")
      ∷ []

-- A number that is parsed and passes a test.
unfoldable pub parsed_and : (ℤ → Bool) → Result ℤ → Bool
parsed_and test (ok n) = test n
parsed_and test (err e) = false

-- `validateRateLimitZoneSize`
unfoldable pub validate_rate_limit_zone_size : String → FieldPath → ErrorList
unfolding validate_size trim_suffix to_lower_units parse_int parsed_and less leq
validate_rate_limit_zone_size zone_size path =
    let kb_zone_size_num = parse_int (trim_suffix b'k' (to_lower_units zone_size)) in
    let mb_zone_size_num = parse_int (trim_suffix b'm' (to_lower_units zone_size)) in
    if zone_size == ""
    then required path "" ∷ []
    else validate_size zone_size path
      ++ (if parsed_and (λ n. less n (pos 32)) kb_zone_size_num
            || parsed_and (λ n. leq n (pos 0) && leq (pos 0) n) mb_zone_size_num
          then invalid path zone_size (text "must be greater than 31k") ∷ []
          else [])

-- `rateLimitKeyVariables` and `rateLimitKeySpecialVariables`
abbrev pub rate_limit_key_variables : List String
rate_limit_key_variables = "binary_remote_addr" ∷ "request_uri" ∷ "uri" ∷ "args" ∷ []

abbrev pub rate_limit_key_special_variables : List String
rate_limit_key_special_variables = "arg_" ∷ "http_" ∷ "cookie_" ∷ []

-- `jwtTokenSpecialVariables`
abbrev pub jwt_token_special_variables : List String
jwt_token_special_variables = "arg_" ∷ "http_" ∷ "cookie_" ∷ []

-- `validLogLevels`
abbrev pub valid_log_levels : List String
valid_log_levels = "info" ∷ "notice" ∷ "warn" ∷ "error" ∷ []

-- `validateVerifyClientKeyParameters`
abbrev pub validate_verify_client_key_parameters : List String
validate_verify_client_key_parameters = "on" ∷ "off" ∷ "optional" ∷ "optional_no_ca" ∷ []

-- `validateRateLimitLogLevel`
unfoldable pub validate_rate_limit_log_level : String → FieldPath → ErrorList
unfolding contains
validate_rate_limit_log_level log_level path =
    if contains valid_log_levels log_level
    then []
    else invalid path log_level (accepted_are log_level valid_log_levels) ∷ []

-- `validateJWTRealm`, whose expression is that of header values.
unfoldable pub validate_jwt_realm : String → FieldPath → ErrorList
unfolding matches_header_value
validate_jwt_realm realm path =
    if realm == ""
    then required path "" ∷ []
    else if matches_header_value realm
    then []
    else invalid path realm (
        regex_error
          "a valid realm must have all '\"' escaped and must not contain any '$' or end with an unescaped '\\'"
          "([^\"$\\\\]|\\\\[^$])*")
      ∷ []

-- `validateIngressMTLSVerifyClient`
unfoldable pub validate_ingress_mtls_verify_client : String → FieldPath → ErrorList
unfolding validate_parameter
validate_ingress_mtls_verify_client verify_client path =
    if verify_client == ""
    then []
    else validate_parameter verify_client validate_verify_client_key_parameters path

-- `token[1:]` of a text that is not empty.
unfoldable pub drop_first : String → String
drop_first String.[] = ""
drop_first (String.◌∷◌ c s) = s

-- The errors of a policy that is set.
unfoldable pub validate_set :
    {A : Type 0} → (A → FieldPath → ErrorList) → Option A → FieldPath → ErrorList
validate_set validate none path = []
validate_set validate (some a) path = validate a path

-- `fieldCount` of `validatePolicySpec`
unfoldable pub policy_count : PolicySpec → ℕ
unfolding count_some
policy_count spec =
    count_some spec.access_control
    + count_some spec.rate_limit
    + count_some spec.jwt_auth
    + count_some spec.ingress_mtls
    + count_some spec.egress_mtls

-- If a JWT policy stands without NGINX Plus, which ends the validation.
unfoldable pub jwt_forbidden : Bool → Option JwtAuth → Bool
jwt_forbidden is_plus none = false
jwt_forbidden is_plus (some jwt) = not is_plus

module _ (checks : Checks) (is_plus : Bool) where
  -- `validateSSLName`
  unfoldable pub validate_ssl_name : String → FieldPath → ErrorList
  unfolding invalid_all
  validate_ssl_name name path =
      if name == "" then [] else invalid_all path name (checks.is_dns1123_subdomain name)

  -- `validateIPorCIDR`
  unfoldable pub validate_ip_or_cidr : String → FieldPath → ErrorList
  validate_ip_or_cidr ip_or_cidr path =
      if checks.parse_cidr ip_or_cidr || checks.parse_ip ip_or_cidr
      then []
      else invalid path ip_or_cidr (text "must be a CIDR or IP") ∷ []

  unfoldable pub validate_ips : ℕ → List String → FieldPath → ErrorList
  unfolding validate_ip_or_cidr
  validate_ips i [] path = []
  validate_ips i (x ∷ xs) path =
      let rest = validate_ips (suc i) xs path in validate_ip_or_cidr x (index path i) ++ rest

  unfoldable pub validate_set_ips : Option (List String) → FieldPath → ErrorList
  unfolding validate_ips
  validate_set_ips none path = []
  validate_set_ips (some xs) path = validate_ips 0 xs path

  -- `validateAccessControl`
  unfoldable pub validate_access_control : AccessControl → FieldPath → ErrorList
  unfolding validate_set_ips count_some
  validate_access_control access_control path =
      validate_set_ips access_control.allow (child path "allow")
      ++ (validate_set_ips access_control.deny (child path "deny")
          ++ (if eqb (count_some access_control.allow + count_some access_control.deny) 1
              then []
              else invalid path "" (text "must specify exactly one of: `allow` or `deny`") ∷ []))

  -- `validateRateLimitKey`
  unfoldable pub validate_rate_limit_key : String → FieldPath → ErrorList
  unfolding matches_escaped_strings validate_string_with_variables
  validate_rate_limit_key key path =
      if key == ""
      then required path "" ∷ []
      else (if matches_escaped_strings key
          then []
          else invalid path key (regex_error escaped_strings_err_msg escaped_strings_fmt) ∷ [])
        ++ validate_string_with_variables checks is_plus key path rate_limit_key_special_variables
            rate_limit_key_variables

  -- The reject code of `validateRateLimit`.
  unfoldable pub validate_reject_code : ℤ → FieldPath → ErrorList
  unfolding less
  validate_reject_code code path =
      if less code (pos 400) || less (pos 599) code
      then invalid_int path code (text "must be within the range [400-599]") ∷ []
      else []

  -- `validateRateLimit`
  unfoldable pub validate_rate_limit : RateLimit → FieldPath → ErrorList
  unfolding validate_rate_limit_zone_size validate_rate validate_rate_limit_key validate_set_int
      validate_positive_int validate_rate_limit_log_level validate_reject_code
  validate_rate_limit rate_limit path =
      validate_rate_limit_zone_size rate_limit.zone_size (child path "zoneSize")
      ++ (validate_rate rate_limit.rate (child path "rate")
          ++ (validate_rate_limit_key rate_limit.key (child path "key")
              ++ (validate_set_int validate_positive_int rate_limit.delay (child path "delay")
                  ++ (validate_set_int validate_positive_int rate_limit.burst (child path "burst")
                      ++ ((if rate_limit.log_level == ""
                            then []
                            else validate_rate_limit_log_level rate_limit.log_level
                                (child path "logLevel"))
                          ++ validate_set_int validate_reject_code rate_limit.reject_code
                              (child path "rejectCode"))))))

  -- `validateJWTToken`, which is called for NGINX Plus alone.
  unfoldable pub validate_jwt_token : String → FieldPath → ErrorList
  unfolding split drop_first validate_special_variable
  validate_jwt_token token path = if token == "" then [] else elim (split b'$' token) [
    | _ ∷ _ ∷ [] ↦
        let n_var = drop_first token in
        if any (λ special_var. starts_with n_var special_var) jwt_token_special_variables
        then validate_special_variable checks true n_var path
        else invalid path token (text "must only have special vars") ∷ []
    | _ ↦ invalid path token (text "must have 1 var") ∷ []
  ]

  -- `validateJWT`
  unfoldable pub validate_jwt : JwtAuth → FieldPath → ErrorList
  unfolding validate_jwt_realm validate_secret_name validate_jwt_token
  validate_jwt jwt path =
      validate_jwt_realm jwt.realm (child path "realm")
      ++ (if jwt.secret == ""
          then required (child path "secret") "" ∷ []
          else validate_secret_name checks jwt.secret (child path "secret")
            ++ validate_jwt_token jwt.token (child path "token"))

  -- `validateIngressMTLS`
  unfoldable pub validate_ingress_mtls : IngressMtls → FieldPath → ErrorList
  unfolding validate_secret_name validate_ingress_mtls_verify_client validate_set_int
      validate_positive_int_or_zero
  validate_ingress_mtls ingress_mtls path =
      if ingress_mtls.client_cert_secret == ""
      then required (child path "clientCertSecret") "" ∷ []
      else validate_secret_name checks ingress_mtls.client_cert_secret
          (child path "clientCertSecret")
        ++ (validate_ingress_mtls_verify_client ingress_mtls.verify_client
              (child path "verifyClient")
            ++ validate_set_int validate_positive_int_or_zero ingress_mtls.verify_depth
                (child path "verifyDepth"))

  -- `validateEgressMTLS`
  unfoldable pub validate_egress_mtls : EgressMtls → FieldPath → ErrorList
  unfolding validate_secret_name validate_set_int validate_positive_int_or_zero validate_ssl_name
  validate_egress_mtls egress_mtls path =
      validate_secret_name checks egress_mtls.tls_secret (child path "tlsSecret")
      ++ (if egress_mtls.verify_server && egress_mtls.trusted_cert_secret == ""
          then required (child path "trustedCertSecret") "must be set when verifyServer is 'true'"
            ∷ []
          else validate_secret_name checks egress_mtls.trusted_cert_secret
              (child path "trustedCertSecret")
            ++ (validate_set_int validate_positive_int_or_zero egress_mtls.verify_depth
                  (child path "verifyDepth")
                ++ validate_ssl_name egress_mtls.ssl_name (child path "sslName")))

  -- `validatePolicySpec`
  unfoldable pub validate_policy_spec : PolicySpec → FieldPath → ErrorList
  unfolding validate_set validate_access_control validate_rate_limit validate_jwt
      validate_ingress_mtls validate_egress_mtls policy_count jwt_forbidden
  validate_policy_spec spec path =
      validate_set validate_access_control spec.access_control (child path "accessControl")
      ++ (validate_set validate_rate_limit spec.rate_limit (child path "rateLimit")
          ++ (if jwt_forbidden is_plus spec.jwt_auth
              then forbidden (child path "jwt")
                  (text "jwt secrets are only supported in NGINX Plus")
                ∷ []
              else validate_set validate_jwt spec.jwt_auth (child path "jwt")
                ++ (validate_set validate_ingress_mtls spec.ingress_mtls (child path "ingressMTLS")
                    ++ (validate_set validate_egress_mtls spec.egress_mtls (child path "egressMTLS")
                        ++ (if eqb (policy_count spec) 1
                            then []
                            else invalid path "" (
                                text (
                                  if is_plus
                                  then "must specify exactly one of: `accessControl`, `rateLimit`, `ingressMTLS`, `egressMTLS`, `jwt`"
                                  else "must specify exactly one of: `accessControl`, `rateLimit`, `ingressMTLS`, `egressMTLS`"))
                              ∷ [])))))

  -- `ValidatePolicy` before the errors are joined.
  unfoldable pub validate_policy_resource : PolicySpec → ErrorList
  unfolding validate_policy_spec
  validate_policy_resource spec = validate_policy_spec spec (new_path "spec")

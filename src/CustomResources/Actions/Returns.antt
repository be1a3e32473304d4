-- ===== src/CustomResources/Actions/Returns.antt =====
-- pkg/apis/configuration/validation/virtualserver.go: redirects and returns, and the variables that
-- they may use.
use mathlib.Core.List.{◌++◌}
use kubernetes_ingress.Prelude.{
  ℤ, pos, leq, String, ◌==◌, Bool, not, ◌&&◌, ◌||◌, List, [], ◌∷◌, if◌then◌else◌,
}
use kubernetes_ingress.Api.{ActionRedirect, ActionReturn}
use kubernetes_ingress.Parsing.Strings.{has_text}
use kubernetes_ingress.Validation.Errors.{
  FieldPath, child, text, regex_error, required, invalid, invalid_int, ErrorList,
}
use kubernetes_ingress.CustomResources.Checks.{Checks}
use kubernetes_ingress.CustomResources.Patterns.{
  matches_escaped_strings, matches_action_return_type, escaped_strings_fmt, escaped_strings_err_msg,
}
use kubernetes_ingress.CustomResources.Common.{validate_string_with_variables}
use kubernetes_ingress.CustomResources.Fields.{validate_redirect_status_code}

-- `returnBodyVariables`
abbrev pub return_body_variables : List String
return_body_variables =
    "request_uri" ∷ "request_method" ∷ "request_body" ∷ "scheme" ∷ "args" ∷ "host" ∷ "request_time"
    ∷ "request_length" ∷ "nginx_version" ∷ "pid" ∷ "connection" ∷ "remote_addr" ∷ "remote_port"
    ∷ "time_iso8601" ∷ "time_local" ∷ "server_addr" ∷ "server_port" ∷ "server_name"
    ∷ "server_protocol" ∷ "connections_active" ∷ "connections_reading" ∷ "connections_writing"
    ∷ "connections_waiting" ∷ []

-- `returnBodySpecialVariables`
abbrev pub return_body_special_variables : List String
return_body_special_variables = "arg_" ∷ "http_" ∷ "cookie_" ∷ []

-- `validRedirectVariableNames`
abbrev pub valid_redirect_variable_names : List String
valid_redirect_variable_names = "scheme" ∷ "http_x_forwarded_proto" ∷ "request_uri" ∷ "host" ∷ []

-- `actionProxyHeaderVariables`
abbrev pub action_proxy_header_variables : List String
action_proxy_header_variables =
    "request_uri" ∷ "request_method" ∷ "request_body" ∷ "scheme" ∷ "args" ∷ "host" ∷ "request_time"
    ∷ "request_length" ∷ "nginx_version" ∷ "pid" ∷ "connection" ∷ "remote_addr" ∷ "remote_port"
    ∷ "time_iso8601" ∷ "time_local" ∷ "server_addr" ∷ "server_port" ∷ "server_name"
    ∷ "server_protocol" ∷ "connections_active" ∷ "connections_reading" ∷ "connections_writing"
    ∷ "connections_waiting" ∷ "ssl_cipher" ∷ "ssl_ciphers" ∷ "ssl_client_cert"
    ∷ "ssl_client_escaped_cert" ∷ "ssl_client_fingerprint" ∷ "ssl_client_i_dn"
    ∷ "ssl_client_i_dn_legacy" ∷ "ssl_client_raw_cert" ∷ "ssl_client_s_dn"
    ∷ "ssl_client_s_dn_legacy" ∷ "ssl_client_serial" ∷ "ssl_client_v_end" ∷ "ssl_client_v_remain"
    ∷ "ssl_client_v_start" ∷ "ssl_client_verify" ∷ "ssl_curves" ∷ "ssl_early_data" ∷ "ssl_protocol"
    ∷ "ssl_server_name" ∷ "ssl_session_id" ∷ "ssl_session_reused" ∷ []

-- `actionProxyHeaderSpecialVariables`
abbrev pub action_proxy_header_special_variables : List String
action_proxy_header_special_variables =
    "arg_" ∷ "http_" ∷ "cookie_" ∷ "jwt_claim_" ∷ "jwt_header_" ∷ []

-- `validateActionReturnCode`
unfoldable pub validate_action_return_code : ℤ → FieldPath → ErrorList
unfolding leq
validate_action_return_code code path =
    if (leq (pos 200) code && leq code (pos 299)) || (leq (pos 400) code && leq code (pos 599))
    then []
    else invalid_int path code
        (text "must be a valid status code either 2XX, 4XX or 5XX, for example, 200 or 402.")
      ∷ []

-- `validateActionReturnType`
unfoldable pub validate_action_return_type : String → FieldPath → ErrorList
unfolding matches_action_return_type
validate_action_return_type return_type path =
    if matches_action_return_type return_type
    then []
    else invalid path return_type (
        regex_error
          "must have all '\"' (double quotes), '{', '}' or ';' escaped and must not end with an unescaped '\\' (backslash)"
          "([^;\\{\\}\"\\\\]|\\\\.)*")
      ∷ []

-- An int that is zero is not set.
unfoldable pub is_zero : ℤ → Bool
unfolding leq
is_zero n = leq n (pos 0) && leq (pos 0) n

module _ (checks : Checks) (is_plus : Bool) where
  -- `validateRedirectURL`
  unfoldable pub validate_redirect_url : String → FieldPath → List String → ErrorList
  unfolding has_text matches_escaped_strings validate_string_with_variables
  validate_redirect_url redirect_url path valid_vars =
      if redirect_url == ""
      then required path "must specify a url" ∷ []
      else if not (has_text "://" redirect_url)
      then invalid path redirect_url (
          text
            "must contain the protocol with '://', for example http://, https:// or ${scheme}://")
        ∷ []
      else if not (matches_escaped_strings redirect_url)
      then invalid path redirect_url (regex_error escaped_strings_err_msg escaped_strings_fmt) ∷ []
      else validate_string_with_variables checks is_plus redirect_url path [] valid_vars

  -- `validateActionRedirect`
  unfoldable pub validate_action_redirect : ActionRedirect → FieldPath → List String → ErrorList
  unfolding validate_redirect_url validate_redirect_status_code is_zero
  validate_action_redirect redirect path valid_vars =
      validate_redirect_url redirect.url (child path "url") valid_vars
      ++ (if is_zero redirect.code
          then []
          else validate_redirect_status_code redirect.code (child path "code"))

  -- `validateEscapedStringWithVariables`
  unfoldable pub validate_escaped_string_with_variables :
      String → FieldPath → List String → List String → ErrorList
  unfolding matches_escaped_strings validate_string_with_variables
  validate_escaped_string_with_variables body path special_valid_vars valid_vars =
      (if matches_escaped_strings body
        then []
        else invalid path body (regex_error escaped_strings_err_msg escaped_strings_fmt) ∷ [])
      ++ validate_string_with_variables checks is_plus body path special_valid_vars valid_vars

  -- `validateActionReturn`
  unfoldable pub validate_action_return :
      ActionReturn → FieldPath → List String → List String → ErrorList
  unfolding validate_escaped_string_with_variables validate_action_return_type
      validate_action_return_code is_zero
  validate_action_return r path special_valid_vars valid_vars =
      if r.body == ""
      then required (child path "body") "" ∷ []
      else validate_escaped_string_with_variables r.body (child path "body") special_valid_vars
          valid_vars
        ++ ((if r.return_type == ""
              then []
              else validate_action_return_type r.return_type (child path "type"))
            ++ (if is_zero r.code
                then []
                else validate_action_return_code r.code (child path "code")))

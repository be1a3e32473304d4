-- ===== src/CustomResources/Upstreams/Parameters.antt =====
-- pkg/apis/configuration/validation/virtualserver.go: the parameters of an upstream.
use mathlib.Core.List.{◌++◌}
use Prim.Native.String.{◌++◌ as ◌<>◌}
use kubernetes_ingress.Prelude.{
  ℕ, suc, ℤ, pos, leq, less, String, ◌==◌, starts_with, Bool, not, ◌&&◌, ◌||◌, Option, none, some,
  List, [], ◌∷◌, eqb, if◌then◌else◌,
}
use kubernetes_ingress.Api.{UpstreamBuffers, HealthCheck, SessionCookie, UpstreamQueue, Header}
use kubernetes_ingress.Parsing.{ok, err, parse_lb_method, parse_lb_method_for_plus}
use kubernetes_ingress.Parsing.Signed.{parse_int64}
use kubernetes_ingress.Parsing.Strings.{contains, split, has_char, trim_prefix, fields}
use kubernetes_ingress.Validation.Errors.{
  FieldPath, child, index, text, parse_failed, required, invalid, invalid_int, ErrorList,
}
use kubernetes_ingress.CustomResources.Checks.{Checks, invalid_all, invalid_int_all}
use kubernetes_ingress.CustomResources.Common.{validate_time, validate_size, is_cookie_name}
use kubernetes_ingress.CustomResources.Fields.{
  validate_path, validate_positive_int_or_zero, validate_header,
}

-- `validateBuffer`
unfoldable pub validate_buffer : Option UpstreamBuffers → FieldPath → ErrorList
unfolding leq validate_size
validate_buffer none path = []
validate_buffer (some buff) path =
    (if leq buff.number (pos 0)
      then invalid_int (child path "number") buff.number (text "must be positive") ∷ []
      else [])
    ++ (if buff.size == ""
        then required (child path "size") "cannot be empty" ∷ []
        else validate_size buff.size (child path "size"))

-- `validateUpstreamLBMethod`
unfoldable pub validate_upstream_lb_method : String → FieldPath → Bool → ErrorList
unfolding parse_lb_method parse_lb_method_for_plus
validate_upstream_lb_method lb_method path is_plus =
    if lb_method == ""
    then []
    else elim (if is_plus then parse_lb_method_for_plus lb_method else parse_lb_method lb_method) [
      | ok _ ↦ []
      | err e ↦ invalid path lb_method (parse_failed e) ∷ []
    ]

-- `validateIntFromString`: the number, or the message.
unfoldable pub validate_int_from_string : String → ℤ × Option String
unfolding parse_int64
validate_int_from_string number = elim (parse_int64 number) [
  | err _ ↦ (pos 0, some (number <> " must be a valid integer"))
  | ok n ↦ (n, none)
]

-- `validateStatusCode`; "" is `none`.
unfoldable pub validate_status_code : Checks → String → Option String
unfolding validate_int_from_string less
validate_status_code checks status =
    let parsed = validate_int_from_string status in
    elim parsed.1 [
      | some msg ↦ some msg
      | none ↦
          if less parsed.0 (pos 100) || less (pos 999) parsed.0
          then some (checks.inclusive_range_error (pos 100) (pos 999))
          else none
    ]

-- `validateStatusCodeRange`; the message on the order of the limits leaves them out.
unfoldable pub validate_status_code_range : Checks → String → Option String
unfolding split validate_int_from_string validate_status_code leq
validate_status_code_range checks status_range_str = elim (split b'-' status_range_str) [
  | low ∷ high ∷ [] ↦
      let min = validate_int_from_string low in
      let max = validate_int_from_string high in
      elim min.1 [
        | some msg ↦ some msg
        | none ↦ elim max.1 [
          | some msg ↦ some msg
          | none ↦ elim (validate_status_code checks low) [
            | some msg ↦ some msg
            | none ↦ elim (validate_status_code checks high) [
              | some msg ↦ some msg
              | none ↦ if leq max.0 min.0 then some "range limits must be increasing" else none
            ]
          ]
        ]
      ]
  | _ ↦ some "ranges must only have 2 numbers"
]

-- A message as an error of the whole text.
unfoldable pub status_error : FieldPath → String → Option String → ErrorList
status_error path s none = []
status_error path s (some msg) = invalid path s (text msg) ∷ []

-- The loop of `validateStatusMatch` from index `i`.
unfoldable pub validate_statuses : Checks → ℕ → List String → String → FieldPath → ErrorList
unfolding validate_status_code_range validate_status_code has_char status_error
validate_statuses checks i [] s path = []
validate_statuses checks i (value ∷ values) s path =
    let rest = validate_statuses checks (suc i) values s path in
    (if value == "!"
      then (if eqb i 0
          then []
          else invalid path s (text "`!` can only appear once at the beginning") ∷ [])
      else if has_char b'-' value
      then status_error path s (validate_status_code_range checks value)
      else status_error path s (validate_status_code checks value))
    ++ rest

-- `validateStatusMatch`
unfoldable pub validate_status_match : Checks → String → FieldPath → ErrorList
unfolding validate_statuses split
validate_status_match checks s path =
    if s == ""
    then []
    else (if starts_with s "!" && not (starts_with s "! ")
        then invalid path s (text "must have an space character after the `!`") ∷ []
        else [])
      ++ validate_statuses checks 0 (split b' ' s) s path

unfoldable pub validate_headers : Checks → ℕ → List Header → FieldPath → ErrorList
unfolding validate_header
validate_headers checks i [] path = []
validate_headers checks i (h ∷ hs) path =
    let rest = validate_headers checks (suc i) hs path in
    validate_header checks h (index path i) ++ rest

-- `validateUpstreamHealthCheck`
unfoldable pub validate_upstream_health_check : Checks → Option HealthCheck → FieldPath → ErrorList
unfolding validate_path validate_time validate_positive_int_or_zero validate_status_match
    validate_headers less invalid_int_all
validate_upstream_health_check checks none path = []
validate_upstream_health_check checks (some hc) path =
    (if hc.path == "" then [] else validate_path hc.path (child path "path"))
    ++ (validate_time hc.interval (child path "interval")
        ++ (validate_time hc.jitter (child path "jitter")
            ++ (validate_positive_int_or_zero hc.fails (child path "fails")
                ++ (validate_positive_int_or_zero hc.passes (child path "passes")
                    ++ (validate_time hc.connect_timeout (child path "connect-timeout")
                        ++ (validate_time hc.read_timeout (child path "read-timeout")
                            ++ (validate_time hc.send_timeout (child path "send-timeout")
                                ++ (validate_status_match checks hc.status_match
                                      (child path "statusMatch")
                                    ++ (validate_headers checks 0 hc.headers (child path "headers")
                                        ++ (if less (pos 0) hc.port
                                            then invalid_int_all (child path "port") hc.port
                                                (checks.is_valid_port_num hc.port)
                                            else []))))))))))

-- `validateSessionCookie`
unfoldable pub validate_session_cookie : Checks → Option SessionCookie → FieldPath → ErrorList
unfolding invalid_all is_cookie_name validate_path validate_time trim_prefix
validate_session_cookie checks none path = []
validate_session_cookie checks (some sc) path =
    (if sc.name == ""
      then required (child path "name") "" ∷ []
      else invalid_all (child path "name") sc.name (is_cookie_name sc.name))
    ++ ((if sc.path == "" then [] else validate_path sc.path (child path "path"))
        ++ ((if sc.expires == "max" then [] else validate_time sc.expires (child path "expires"))
            ++ (if sc.domain == ""
                then []
                else invalid_all (child path "domain") sc.domain
                    (checks.is_dns1123_subdomain (trim_prefix b'.' sc.domain)))))

-- `validNextUpstreamParams`
abbrev pub valid_next_upstream_params : List String
valid_next_upstream_params =
    "error" ∷ "timeout" ∷ "invalid_header" ∷ "http_500" ∷ "http_502" ∷ "http_503" ∷ "http_504"
    ∷ "http_403" ∷ "http_404" ∷ "http_429" ∷ "non_idempotent" ∷ "off" ∷ "" ∷ []

-- The loop of `validateNextUpstream`, with the parameters seen.
unfoldable pub validate_next_params : List String → List String → FieldPath → ErrorList
unfolding contains
validate_next_params all_params [] path = []
validate_next_params all_params (para ∷ params) path =
    let seen = contains all_params para in
    let rest = validate_next_params (if seen then all_params else para ∷ all_params) params path in
    (if contains valid_next_upstream_params para
      then []
      else invalid path para (text "not a valid parameter") ∷ [])
    ++ ((if seen then invalid path para (text "can not have duplicate parameters") ∷ [] else [])
        ++ rest)

-- `validateNextUpstream`
unfoldable pub validate_next_upstream : String → FieldPath → ErrorList
unfolding validate_next_params fields
validate_next_upstream next_upstream path =
    if next_upstream == "" then [] else validate_next_params [] (fields next_upstream) path

-- `validateQueue`
unfoldable pub validate_queue : Option UpstreamQueue → FieldPath → ErrorList
unfolding validate_time leq
validate_queue none path = []
validate_queue (some queue) path =
    validate_time queue.timeout (child path "timeout")
    ++ (if leq queue.size (pos 0) then required (child path "size") "must be positive" ∷ [] else [])

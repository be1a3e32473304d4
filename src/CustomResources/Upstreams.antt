-- ===== src/CustomResources/Upstreams.antt =====
-- pkg/apis/configuration/validation/virtualserver.go: the upstreams.
pub mod Parameters
pub mod Names
pub mod Plus
use mathlib.Core.List.{◌++◌}
use kubernetes_ingress.Prelude.{
  ℕ, suc, ℤ, pos, String, ◌==◌, Bool, true, false, not, Option, none, some, List, [], ◌∷◌, length,
  ltb, if◌then◌else◌,
}
use kubernetes_ingress.Api.{Upstream}
use kubernetes_ingress.Parsing.Strings.{contains}
use kubernetes_ingress.Validation.Errors.{
  FieldPath, child, index, text, duplicate, forbidden, ErrorList,
}
use kubernetes_ingress.CustomResources.Checks.{Checks, invalid_int_all}
use kubernetes_ingress.CustomResources.Common.{validate_time, validate_offset, validate_size}
use kubernetes_ingress.CustomResources.Fields.{
  validate_upstream_name, validate_service_name, validate_labels,
  validate_positive_int_or_zero_from_pointer,
}
use Parameters.{
  validate_buffer, validate_upstream_lb_method, validate_upstream_health_check,
  validate_session_cookie, validate_next_upstream, validate_queue,
}

-- `rejectPlusResourcesInOSS`
unfoldable pub reject_plus_resources_in_oss : Upstream → FieldPath → Bool → ErrorList
reject_plus_resources_in_oss upstream path true = []
reject_plus_resources_in_oss upstream path false =
    let health_check : ErrorList = elim upstream.health_check [
      | none ↦ []
      | some _ ↦
          forbidden (child path "healthCheck")
            (text "active health checks are only supported in NGINX Plus")
          ∷ []
    ] in
    let slow_start : ErrorList =
      if upstream.slow_start == ""
      then []
      else forbidden (child path "slow-start") (text "slow start is only supported in NGINX Plus")
        ∷ [] in
    let session_cookie : ErrorList = elim upstream.session_cookie [
      | none ↦ []
      | some _ ↦
          forbidden (child path "sessionCookie")
            (text "sticky cookies are only supported in NGINX Plus")
          ∷ []
    ] in
    let queue : ErrorList = elim upstream.queue [
      | none ↦ []
      | some _ ↦ forbidden (child path "queue") (text "queue is only supported in NGINX Plus") ∷ []
    ] in
    health_check ++ (slow_start ++ (session_cookie ++ queue))

-- The parameters of one upstream of the loop of `validateUpstreams`.
unfoldable pub validate_upstream_parameters : Checks → Bool → Upstream → FieldPath → ErrorList
unfolding validate_service_name validate_labels validate_time validate_next_upstream
    validate_positive_int_or_zero_from_pointer validate_upstream_lb_method validate_offset
    validate_upstream_health_check validate_buffer validate_size validate_queue
    validate_session_cookie invalid_int_all
validate_upstream_parameters checks is_plus u path =
    validate_service_name checks u.service (child path "service")
    ++ (validate_labels checks u.subselector (child path "subselector")
        ++ (validate_time u.proxy_connect_timeout (child path "connect-timeout")
            ++ (validate_time u.proxy_read_timeout (child path "read-timeout")
                ++ (validate_time u.proxy_send_timeout (child path "send-timeout")
                    ++ (validate_next_upstream u.proxy_next_upstream (child path "next-upstream")
                        ++ (validate_time u.proxy_next_upstream_timeout
                              (child path "next-upstream-timeout")
                            ++ (validate_positive_int_or_zero_from_pointer
                                  (some u.proxy_next_upstream_tries)
                                  (child path "next-upstream-tries")
                                ++ (validate_upstream_lb_method u.lb_method (child path "lb-method")
                                      is_plus
                                    ++ (validate_time u.fail_timeout (child path "fail-timeout")
                                        ++ (validate_positive_int_or_zero_from_pointer u.max_fails
                                              (child path "max-fails")
                                            ++ (validate_positive_int_or_zero_from_pointer
                                                  u.keepalive (child path "keepalive")
                                                ++ (validate_positive_int_or_zero_from_pointer
                                                      u.max_conns (child path "max-conns")
                                                    ++ (validate_offset u.client_max_body_size
                                                          (child path "client-max-body-size")
                                                        ++ (validate_upstream_health_check checks
                                                            u.health_check
                                                            (child path "healthCheck")
                                                            ++ (validate_time u.slow_start
                                                            (child path "slow-start")
                                                            ++ (validate_buffer u.proxy_buffers
                                                            (child path "buffers")
                                                            ++ (validate_size u.proxy_buffer_size
                                                            (child path "buffer-size")
                                                            ++ (validate_queue u.queue
                                                            (child path "queue")
                                                            ++ (validate_session_cookie checks
                                                            u.session_cookie
                                                            (child path "sessionCookie")
                                                            ++ invalid_int_all (child path "port")
                                                            (pos u.port)
                                                            (checks.is_valid_port_num
                                                            (pos u.port)))))))))))))))))))))

-- The errors of one upstream, but for those of its name.
unfoldable pub validate_upstream : Checks → Bool → Upstream → FieldPath → ErrorList
unfolding validate_upstream_parameters reject_plus_resources_in_oss
validate_upstream checks is_plus u path =
    validate_upstream_parameters checks is_plus u path
    ++ reject_plus_resources_in_oss u path is_plus

-- The errors of a name, and the names seen with it: a bad or repeated one is not added.
unfoldable pub add_upstream_name :
    Checks → String → FieldPath → List String → ErrorList × List String
unfolding validate_upstream_name contains
add_upstream_name checks name path names =
    let upstream_errors = validate_upstream_name checks name path in
    if ltb 0 (length upstream_errors)
    then (upstream_errors, names)
    else if contains names name
    then (duplicate path name ∷ [], names)
    else ([], name ∷ names)

-- The loop of `validateUpstreams` from index `i`, with the names seen.
unfoldable pub validate_upstreams_from :
    Checks → Bool → ℕ → List String → List Upstream → FieldPath → ErrorList × List String
unfolding add_upstream_name validate_upstream
validate_upstreams_from checks is_plus i names [] path = ([], names)
validate_upstreams_from checks is_plus i names (u ∷ us) path =
    let named = add_upstream_name checks u.name (child (index path i) "name") names in
    let rest = validate_upstreams_from checks is_plus (suc i) named.1 us path in
    (named.0 ++ (validate_upstream checks is_plus u (index path i) ++ rest.0), rest.1)

-- `validateUpstreams`
unfoldable pub validate_upstreams :
    Checks → Bool → List Upstream → FieldPath → ErrorList × List String
unfolding validate_upstreams_from
validate_upstreams checks is_plus upstreams path =
    validate_upstreams_from checks is_plus 0 [] upstreams path

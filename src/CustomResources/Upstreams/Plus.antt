-- ===== src/CustomResources/Upstreams/Plus.antt =====
-- The features of NGINX Plus in the upstreams of the open source NGINX.
use mathlib.Core.List.{◌++◌}
use kubernetes_ingress.Prelude.{
  ℕ, suc, String, ◌≡◌, sym, inl, inr, ◌==◌, eq_iff, refl, false, none, some, List, [], ◌∷◌, In,
  append-[], arith, Bool-cases, subst,
}
use kubernetes_ingress.Api.{Upstream}
use kubernetes_ingress.Validation.Errors.{FieldPath, child, index, ErrorList, invalid, parse_failed}
use kubernetes_ingress.CustomResources.Checks.{Checks}
use kubernetes_ingress.Parsing.{Result, ok, err, parse_lb_method}
use kubernetes_ingress.Parsing.Strings.{trim_space, contains}
use kubernetes_ingress.Parsing.Members.{contains-In}
use kubernetes_ingress.Parsing.Methods.{plus_methods, parse_lb_method-open}
use kubernetes_ingress.CustomResources.Common.{validate_time}
use kubernetes_ingress.CustomResources.Fields.{
  validate_service_name, validate_labels, validate_positive_int_or_zero_from_pointer,
}
use kubernetes_ingress.CustomResources.Upstreams.Parameters.{
  validate_upstream_lb_method, validate_next_upstream,
}
use kubernetes_ingress.CustomResources.Upstreams.{
  reject_plus_resources_in_oss, validate_upstream_parameters, add_upstream_name, validate_upstream,
  validate_upstreams_from, validate_upstreams,
}

-- An upstream without the features that only NGINX Plus has.
pub record IsOpenSource (u : Upstream) : Type 0 where
  pub health_check : u.health_check ≡ none
  pub slow_start : u.slow_start ≡ ""
  pub session_cookie : u.session_cookie ≡ none
  pub queue : u.queue ≡ none
  pub lb_method : ¬ (In (trim_space u.lb_method) plus_methods)

-- A method that is not set is none of them.
no_method : ¬ (In (trim_space "") plus_methods)
unfolding trim_space contains
no_method i =
    let out : contains plus_methods (trim_space "") ≡ false = refl in
    ground (arith, out, (contains-In plus_methods (trim_space "")).1 i)

validate_upstream_lb_method-open :
    (method : String) (path : FieldPath)
    → validate_upstream_lb_method method path false ≡ []
    → ¬ (In (trim_space method) plus_methods)
unfolding validate_upstream_lb_method
validate_upstream_lb_method-open method path h = elim (Bool-cases (method == "")) [
  | inl e ↦ subst (λ m. ¬ (In (trim_space m) plus_methods)) (sym ((eq_iff method "").0 e)) no_method
  | inr e ↦ at_result (parse_lb_method method) refl (rw e at h)
]
  where
    at_result :
        (r : Result String)
        → parse_lb_method method ≡ r
        → (elim r as (λ _. ErrorList) [
          | ok _ ↦ []
          | err e ↦ invalid path method (parse_failed e) ∷ []
        ])
          ≡ []
        → ¬ (In (trim_space method) plus_methods)
    at_result (ok v) e k = parse_lb_method-open method v e
    at_result (err x) e k = absurd (ground (arith, k))

validate_upstream_parameters-open :
    (checks : Checks) (u : Upstream) (path : FieldPath)
    → validate_upstream_parameters checks false u path ≡ []
    → ¬ (In (trim_space u.lb_method) plus_methods)
unfolding validate_upstream_parameters
validate_upstream_parameters-open checks u path h =
    let h1 = (append-[] (validate_service_name checks u.service (child path "service")) _ h).1 in
    let h2 = (append-[] (validate_labels checks u.subselector (child path "subselector")) _ h1).1 in
    let h3 =
      (append-[] (validate_time u.proxy_connect_timeout (child path "connect-timeout")) _ h2).1 in
    let h4 = (append-[] (validate_time u.proxy_read_timeout (child path "read-timeout")) _ h3).1 in
    let h5 = (append-[] (validate_time u.proxy_send_timeout (child path "send-timeout")) _ h4).1 in
    let h6 =
      (append-[] (validate_next_upstream u.proxy_next_upstream (child path "next-upstream")) _
        h5).1 in
    let h7 =
      (append-[] (validate_time u.proxy_next_upstream_timeout (child path "next-upstream-timeout"))
        _ h6).1 in
    let h8 =
      (append-[]
        (validate_positive_int_or_zero_from_pointer (some u.proxy_next_upstream_tries)
          (child path "next-upstream-tries"))
        _ h7).1 in
    let h9 =
      (append-[] (validate_upstream_lb_method u.lb_method (child path "lb-method") false) _ h8).0 in
    validate_upstream_lb_method-open u.lb_method (child path "lb-method") h9

reject_plus_resources_in_oss-IsOpenSource :
    (u : Upstream) (path : FieldPath)
    → ¬ (In (trim_space u.lb_method) plus_methods)
    → reject_plus_resources_in_oss u path false ≡ []
    → IsOpenSource u
unfolding reject_plus_resources_in_oss
reject_plus_resources_in_oss-IsOpenSource u path open_method h = record {
  health_check = ground arith;
  slow_start = elim (Bool-cases (u.slow_start == "")) [
    | inl e ↦ (eq_iff u.slow_start "").0 e
    | inr e ↦ ground arith
  ];
  session_cookie = ground arith;
  queue = ground arith;
  lb_method = open_method;
}

validate_upstream-IsOpenSource :
    (checks : Checks) (u : Upstream) (path : FieldPath)
    → validate_upstream checks false u path ≡ []
    → IsOpenSource u
unfolding validate_upstream
validate_upstream-IsOpenSource checks u path h =
    let (parameters, rejected) =
      append-[] (validate_upstream_parameters checks false u path)
        (reject_plus_resources_in_oss u path false) h in
    reject_plus_resources_in_oss-IsOpenSource u path
      (validate_upstream_parameters-open checks u path parameters) rejected

validate_upstreams_from-IsOpenSource :
    (checks : Checks) (i : ℕ) (names : List String) (us : List Upstream) (path : FieldPath)
    (u : Upstream)
    → (validate_upstreams_from checks false i names us path).0 ≡ []
    → In u us
    → IsOpenSource u
unfolding validate_upstreams_from
validate_upstreams_from-IsOpenSource checks i names [] path u h at = absurd at
validate_upstreams_from-IsOpenSource checks i names (v ∷ us) path u h at =
    let named = add_upstream_name checks v.name (child (index path i) "name") names in
    let rest = validate_upstreams_from checks false (suc i) named.1 us path in
    let es = (append-[] named.0 (validate_upstream checks false v (index path i) ++ rest.0) h).1 in
    let (here, there) = append-[] (validate_upstream checks false v (index path i)) rest.0 es in
    elim at [
      | inl e ↦
          subst IsOpenSource (sym e) (validate_upstream-IsOpenSource checks v (index path i) here)
      | inr j ↦ validate_upstreams_from-IsOpenSource checks (suc i) named.1 us path u there j
    ]

-- Without NGINX Plus, an upstream without errors has no active health check, slow start, session cookie
-- or queue, and no load balancing method that only NGINX Plus has.
pub validate_upstreams-IsOpenSource :
    (checks : Checks) (us : List Upstream) (path : FieldPath) (u : Upstream)
    → (validate_upstreams checks false us path).0 ≡ []
    → In u us
    → IsOpenSource u
unfolding validate_upstreams
validate_upstreams-IsOpenSource checks us path u h at =
    validate_upstreams_from-IsOpenSource checks 0 [] us path u h at

-- ===== src/CustomResources/Policies/Chosen.antt =====
-- What a policy without errors has chosen.
use kubernetes_ingress.Prelude.{
  ◌+◌, ◌≡◌, refl, Bool, false, Option, none, some, [], append-[], arith, eqb, eqb_iff,
}
use kubernetes_ingress.Api.Alpha.{PolicySpec, JwtAuth}
use kubernetes_ingress.Validation.Errors.{FieldPath, child}
use kubernetes_ingress.CustomResources.Checks.{Checks}
use kubernetes_ingress.CustomResources.Passed.{if-required, if-forbidden}
use kubernetes_ingress.CustomResources.Actions.{count_some}
use kubernetes_ingress.CustomResources.Policies.{
  validate_set, validate_access_control, validate_rate_limit, validate_jwt, validate_ingress_mtls,
  validate_egress_mtls, policy_count, jwt_forbidden, validate_policy_spec, validate_policy_resource,
}

-- One of five objects is set and the other four are not.
pub data IsOne {A B C D E : Type 0}
    : Option A → Option B → Option C → Option D → Option E → Type 0 where
  only_first : (a : A) → IsOne (some a) none none none none
  only_second : (b : B) → IsOne none (some b) none none none
  only_third : (c : C) → IsOne none none (some c) none none
  only_fourth : (d : D) → IsOne none none none (some d) none
  only_fifth : (e : E) → IsOne none none none none (some e)

module _ {A B C D E : Type 0} where
  count_some-IsOne :
      (a : Option A) (b : Option B) (c : Option C) (d : Option D) (e : Option E)
      → count_some a + count_some b + count_some c + count_some d + count_some e ≡ 1
      → IsOne a b c d e
  unfolding count_some
  count_some-IsOne (some a) none none none none h = only_first a
  count_some-IsOne none (some b) none none none h = only_second b
  count_some-IsOne none none (some c) none none h = only_third c
  count_some-IsOne none none none (some d) none h = only_fourth d
  count_some-IsOne none none none none (some e) h = only_fifth e
  count_some-IsOne none none none none none h = absurd (omega arith)
  count_some-IsOne (some a) (some b) c d e h = absurd (omega arith)
  count_some-IsOne (some a) none (some c) d e h = absurd (omega arith)
  count_some-IsOne (some a) none none (some d) e h = absurd (omega arith)
  count_some-IsOne (some a) none none none (some e) h = absurd (omega arith)
  count_some-IsOne none (some b) (some c) d e h = absurd (omega arith)
  count_some-IsOne none (some b) none (some d) e h = absurd (omega arith)
  count_some-IsOne none (some b) none none (some e) h = absurd (omega arith)
  count_some-IsOne none none (some c) (some d) e h = absurd (omega arith)
  count_some-IsOne none none (some c) none (some e) h = absurd (omega arith)
  count_some-IsOne none none none (some d) (some e) h = absurd (omega arith)

-- An NGINX without Plus has no JWT policy that may stand.
jwt_forbidden-none : (jwt : Option JwtAuth) → jwt_forbidden false jwt ≡ false → jwt ≡ none
unfolding jwt_forbidden
jwt_forbidden-none none h = refl
jwt_forbidden-none (some jwt) h = absurd (ground (arith, h))

module _ (checks : Checks) (is_plus : Bool) where
  validate_policy_spec-chosen :
      (spec : PolicySpec) (path : FieldPath)
      → validate_policy_spec checks is_plus spec path ≡ []
      → (policy_count spec ≡ 1) × (jwt_forbidden is_plus spec.jwt_auth ≡ false)
  unfolding validate_policy_spec
  validate_policy_spec-chosen spec path h =
      let (_, h1) =
        append-[]
          (validate_set (validate_access_control checks is_plus) spec.access_control
            (child path "accessControl"))
          _ h in
      let (_, h2) =
        append-[]
          (validate_set (validate_rate_limit checks is_plus) spec.rate_limit
            (child path "rateLimit"))
          _ h1 in
      let (f, h3) = if-forbidden (jwt_forbidden is_plus spec.jwt_auth) _ _ h2 in
      let (_, h4) =
        append-[] (validate_set (validate_jwt checks is_plus) spec.jwt_auth (child path "jwt")) _
          h3 in
      let (_, h5) =
        append-[]
          (validate_set (validate_ingress_mtls checks is_plus) spec.ingress_mtls
            (child path "ingressMTLS"))
          _ h4 in
      let (_, h6) =
        append-[]
          (validate_set (validate_egress_mtls checks is_plus) spec.egress_mtls
            (child path "egressMTLS"))
          _ h5 in
      ((eqb_iff (policy_count spec) 1).0 (if-required (eqb (policy_count spec) 1) _ h6), f)

-- A Policy that is validated without errors has exactly one of the five policies set, and on an NGINX
-- without Plus it is no JWT policy.
pub validate_policy_resource-IsOne :
    (checks : Checks) (is_plus : Bool) (spec : PolicySpec)
    → validate_policy_resource checks is_plus spec ≡ []
    → IsOne spec.access_control spec.rate_limit spec.jwt_auth spec.ingress_mtls spec.egress_mtls
      × (is_plus ≡ false → spec.jwt_auth ≡ none)
unfolding validate_policy_resource policy_count
validate_policy_resource-IsOne checks is_plus spec h =
    let (one, f) = validate_policy_spec-chosen checks is_plus spec _ h in
    (
      count_some-IsOne spec.access_control spec.rate_limit spec.jwt_auth spec.ingress_mtls
          spec.egress_mtls one,
      λ e. jwt_forbidden-none spec.jwt_auth (rw e at f),
    )

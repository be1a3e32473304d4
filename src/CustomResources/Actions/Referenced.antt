-- ===== src/CustomResources/Actions/Referenced.antt =====
-- The upstreams that actions refer to.
use mathlib.Core.List.{◌++◌}
use kubernetes_ingress.Prelude.{
  String, ◌≡◌, refl, sym, subst, inl, inr, ◌==◌, Bool, Option, none, some, List, [], ◌∷◌, In,
  In-append_cases, append-[], arith, eqb, Bool-cases, if-false, if◌then◌else◌,
}
use kubernetes_ingress.Api.{Action, ActionProxy}
use kubernetes_ingress.Parsing.Strings.{contains}
use kubernetes_ingress.Parsing.Members.{contains-In}
use kubernetes_ingress.Validation.Errors.{FieldPath, ErrorList, child}
use kubernetes_ingress.CustomResources.Checks.{Checks}
use kubernetes_ingress.CustomResources.Fields.{validate_upstream_name}
use kubernetes_ingress.CustomResources.Actions.{
  validate_referenced_upstream, validate_action_proxy, validate_action, count_actions,
  validate_pass, validate_set_redirect, validate_set_return, validate_set_proxy,
}

-- The upstreams that an action passes requests to.
abbrev pub passed_upstreams : String → List String
passed_upstreams pass = if pass == "" then [] else pass ∷ []

abbrev pub proxied_upstreams : Option ActionProxy → List String
proxied_upstreams none = []
proxied_upstreams (some p) = p.upstream ∷ []

abbrev pub action_upstreams : Action → List String
action_upstreams action = passed_upstreams action.pass ++ proxied_upstreams action.proxy

pub validate_referenced_upstream-In :
    (checks : Checks) (name : String) (path : FieldPath) (names : List String)
    → validate_referenced_upstream checks name path names ≡ []
    → In name names
unfolding validate_referenced_upstream
validate_referenced_upstream-In checks name path names h =
    at_errors (validate_upstream_name checks name path) refl
  where
    at_errors : (errs : ErrorList) → validate_upstream_name checks name path ≡ errs → In name names
    at_errors (x ∷ xs) e = absurd (ground (arith, rw e at h))
    at_errors [] e = elim (Bool-cases (contains names name)) [
      | inl c ↦ (contains-In names name).0 c
      | inr c ↦ absurd (ground (arith, rw (e, c) at h))
    ]

module _ (checks : Checks) (is_plus : Bool) where
  validate_pass-In :
      (pass : String) (path : FieldPath) (names : List String) (x : String)
      → validate_pass checks is_plus pass path names ≡ []
      → In x (passed_upstreams pass)
      → In x names
  unfolding validate_pass
  validate_pass-In pass path names x h i = elim (Bool-cases (pass == "")) [
    | inl e ↦ absurd (rw e at i)
    | inr e ↦
        let at : In x (pass ∷ []) = rw e at i in
        elim at [
          | inl z ↦
              subst (λ y. In y names) (sym z)
                (validate_referenced_upstream-In checks pass path names (
                  if-false (pass == "") [] (validate_referenced_upstream checks pass path names) []
                    e h))
          | inr n ↦ absurd n
        ]
  ]

  validate_set_proxy-In :
      (proxy : Option ActionProxy) (path : FieldPath) (names : List String) (route_path : String)
      (internal : Bool) (x : String)
      → validate_set_proxy checks is_plus proxy path names route_path internal ≡ []
      → In x (proxied_upstreams proxy)
      → In x names
  unfolding validate_set_proxy validate_action_proxy
  validate_set_proxy-In none path names route_path internal x h i = absurd i
  validate_set_proxy-In (some p) path names route_path internal x h (inr n) = absurd n
  validate_set_proxy-In (some p) path names route_path internal x h (inl z) =
      subst (λ y. In y names) (sym z)
        (validate_referenced_upstream-In checks p.upstream (child path "upstream") names
          (append-[] (validate_referenced_upstream checks p.upstream (child path "upstream") names)
            _ h).0)

  -- An action without errors is one action, and its upstreams are among the names.
  pub validate_action-In :
      (action : Action) (path : FieldPath) (names : List String) (route_path : String)
      (internal : Bool)
      → validate_action checks is_plus action path names route_path internal ≡ []
      → (count_actions action ≡ 1) × ((x : String) → In x (action_upstreams action) → In x names)
  unfolding validate_action
  validate_action-In action path names route_path internal h =
      elim (Bool-cases (eqb (count_actions action) 1)) [
        | inr n ↦ absurd (ground (arith, rw n at h))
        | inl o ↦
            let all = rw o at h in
            let (pass, rest) =
              append-[] (validate_pass checks is_plus action.pass (child path "pass") names) _
                all in
            let (_, rest') =
              append-[]
                (validate_set_redirect checks is_plus action.redirect (child path "redirect")) _
                rest in
            let (_, proxy) =
              append-[] (validate_set_return checks is_plus action.return_ (child path "return")) _
                rest' in
            (
              ground arith,
              λ x i.
                  elim (In-append_cases x (passed_upstreams action.pass)
                    (proxied_upstreams action.proxy) i) [
                      | inl p ↦ validate_pass-In action.pass (child path "pass") names x pass p
                      | inr p ↦
                          validate_set_proxy-In action.proxy (child path "proxy") names route_path
                            internal x proxy p
                    ],
            )
      ]

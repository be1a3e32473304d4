-- ===== src/CustomResources/Servers/Subroutes.antt =====
-- What a VirtualServerRoute without errors is for the VirtualServer that refers to it.
use kubernetes_ingress.Prelude.{
  String, ◌≡◌, ◌≢◌, ◌⊎◌, refl, sym, subst, inl, inr, ◌==◌, eq_iff, starts_with, Bool, true, false,
  List, [], ◌∷◌, map, In, Distinct, append-[], arith, Bool-cases, if-true, if-false,
}
use kubernetes_ingress.Api.{Route, VirtualServerRoute}
use kubernetes_ingress.Validation.Errors.{FieldPath, new_path, child, index}
use kubernetes_ingress.CustomResources.Checks.{Checks}
use kubernetes_ingress.CustomResources.Fields.{validate_host}
use kubernetes_ingress.CustomResources.Upstreams.{validate_upstreams}
use kubernetes_ingress.CustomResources.Upstreams.Names.{validate_upstreams-names}
use kubernetes_ingress.CustomResources.Routes.{validate_route, validate_route_reference}
use kubernetes_ingress.CustomResources.Routes.Referenced.{
  AllIn, route_upstreams, validate_route-parts,
}
use kubernetes_ingress.CustomResources.Servers.{
  validate_virtual_server_route_host, validate_virtual_server_route_spec,
  validate_virtual_server_route_for_virtual_server, validate_virtual_server_route_subroutes,
  validate_only_subroute, validate_subroute, is_regex_or_exact_match, validate_paths_from,
}
use kubernetes_ingress.CustomResources.Servers.Accepted.{names_of}
use kubernetes_ingress.CustomResources.Servers.Paths.{validate_paths_from-Distinct}

-- The paths that the code accepts for a subroute under the path `vs_path` of the route that refers to
-- its VirtualServerRoute. That is the same path if `vs_path` is a regular expression or an exact match.
-- If it is a prefix, the path starts with it, or is any regular expression or exact match: such a path
-- is not compared with `vs_path`.
abbrev pub IsAcceptedUnder : Bool → String → Route → Type 0
IsAcceptedUnder true vs_path r = r.path ≡ vs_path
IsAcceptedUnder false vs_path r =
    (starts_with r.path vs_path ≡ true) ⊎ (is_regex_or_exact_match r.path ≡ true)

-- A VirtualServerRoute that a VirtualServer of the host may refer to under the path.
pub record IsSubrouteOf (vs_host vs_path : String) (vsr : VirtualServerRoute) : Type 0 where
  pub host : vsr.host ≡ vs_host
  pub upstreams : Distinct (names_of vsr.upstreams)
  pub paths : Distinct (map (λ r. r.path) vsr.subroutes)
  pub declared :
      (r : Route) → In r vsr.subroutes → AllIn (route_upstreams r) (names_of vsr.upstreams)
  pub ends : (r : Route) → In r vsr.subroutes → r.route ≡ ""
  pub only : is_regex_or_exact_match vs_path ≡ true → (r : Route) × (vsr.subroutes ≡ r ∷ [])
  pub accepted :
      (r : Route) → In r vsr.subroutes → IsAcceptedUnder (is_regex_or_exact_match vs_path) vs_path r

module _ (checks : Checks) (is_plus : Bool) where
  validate_route_reference-[] :
      (route : String) (path : FieldPath)
      → validate_route_reference checks is_plus route path true ≡ []
      → route ≡ ""
  unfolding validate_route_reference
  validate_route_reference-[] route path h = elim (Bool-cases (route == "")) [
    | inl e ↦ (eq_iff route "").0 e
    | inr e ↦ absurd (ground (arith, rw e at h))
  ]

  validate_subroute-IsAcceptedUnder :
      (names : List String) (vs_path namespace : String) (r : Route) (path : FieldPath)
      → vs_path ≢ ""
      → validate_subroute checks is_plus names vs_path namespace r path ≡ []
      → (validate_route checks is_plus r path names true namespace ≡ [])
        × IsAcceptedUnder false vs_path r
  unfolding validate_subroute
  validate_subroute-IsAcceptedUnder names vs_path namespace r path some_path h =
      let (route, starts) =
        append-[] (validate_route checks is_plus r path names true namespace) _ h in
      (
        route,
        elim (Bool-cases (starts_with r.path vs_path)) [
          | inl e ↦ inl e
          | inr e ↦ elim (Bool-cases (is_regex_or_exact_match r.path)) [
            | inl f ↦ inr f
            | inr f ↦ elim (Bool-cases (vs_path == "")) [
              | inl g ↦ absurd (some_path ((eq_iff vs_path "").0 g))
              | inr g ↦ absurd (ground (arith, rw (e, f, g) at starts))
            ]
          ]
        ],
      )

  -- Subroutes without errors: what each is, and that their paths are different.
  Subroutes : List String → String → String → List Route → Type 0
  Subroutes names vs_path namespace routes =
      Distinct (map (λ r. r.path) routes)
      × (is_regex_or_exact_match vs_path ≡ true → (r : Route) × (routes ≡ r ∷ []))
      × ((r : Route)
          → In r routes
          → ((at : FieldPath) × (validate_route checks is_plus r at names true namespace ≡ []))
            × IsAcceptedUnder (is_regex_or_exact_match vs_path) vs_path r)

  validate_only_subroute-Subroutes :
      (routes : List Route) (path : FieldPath) (names : List String) (vs_path namespace : String)
      → is_regex_or_exact_match vs_path ≡ true
      → validate_only_subroute checks is_plus routes path names vs_path namespace ≡ []
      → Subroutes names vs_path namespace routes
  unfolding validate_only_subroute Subroutes
  validate_only_subroute-Subroutes [] path names vs_path namespace t h = absurd (ground arith)
  validate_only_subroute-Subroutes (r ∷ s ∷ rs) path names vs_path namespace t h =
      absurd (ground arith)
  validate_only_subroute-Subroutes (r ∷ []) path names vs_path namespace t h =
      elim (Bool-cases (r.path == vs_path)) [
        | inr e ↦ absurd (ground (arith, rw e at h))
        | inl e ↦
            let ok =
              if-true (r.path == vs_path)
                (validate_route checks is_plus r (index path 0) names true namespace) _ [] e h in
            (
              ((λ n. n), tt),
              (λ m. (r, refl)),
              λ q at. elim at [
                | inr n ↦ absurd n
                | inl z ↦
                    subst
                      (λ y.
                        ((here : FieldPath) × (validate_route checks is_plus y here names true
                              namespace
                            ≡ []))
                        × IsAcceptedUnder (is_regex_or_exact_match vs_path) vs_path y)
                      (sym z) ((index path 0, ok), rw t ((eq_iff r.path vs_path).0 e))
              ],
            )
      ]

  validate_virtual_server_route_subroutes-Subroutes :
      (routes : List Route) (path : FieldPath) (names : List String) (vs_path namespace : String)
      → vs_path ≢ ""
      → validate_virtual_server_route_subroutes checks is_plus routes path names vs_path namespace
        ≡ []
      → Subroutes names vs_path namespace routes
  unfolding validate_virtual_server_route_subroutes Subroutes
  validate_virtual_server_route_subroutes-Subroutes routes path names vs_path namespace some_path
        h =
      elim (Bool-cases (is_regex_or_exact_match vs_path)) [
        | inl t ↦ validate_only_subroute-Subroutes routes path names vs_path namespace t (
            if-true (is_regex_or_exact_match vs_path)
              (validate_only_subroute checks is_plus routes path names vs_path namespace) _ [] t h)
        | inr t ↦
            let loop =
              if-false (is_regex_or_exact_match vs_path)
                (validate_only_subroute checks is_plus routes path names vs_path namespace)
                (validate_paths_from (validate_subroute checks is_plus names vs_path namespace) 0 []
                  routes path)
                [] t h in
            let (distinct, each) =
              validate_paths_from-Distinct
                (validate_subroute checks is_plus names vs_path namespace) routes path loop in
            (
              distinct,
              (λ m. absurd (ground (arith, m, t))),
              λ r at.
                  let (here, ok) = each r at in
                  let (route, follows) =
                    validate_subroute-IsAcceptedUnder names vs_path namespace r here some_path ok in
                  ((here, route), rw t follows),
            )
      ]

  -- A VirtualServerRoute that passes the validation for a VirtualServer of a host and a route path has
  -- that host, upstreams of different names, and subroutes of different paths that refer to declared
  -- upstreams alone and to no further VirtualServerRoute. If the route path is a regular expression or
  -- an exact match, there is one subroute, of that path. If it is a prefix, each subroute has a path
  -- that starts with it, or any regular expression or exact match whatever the prefix.
  pub validate_virtual_server_route-IsSubrouteOf :
      (vsr : VirtualServerRoute) (vs_host vs_path : String)
      → vs_host ≢ ""
      → vs_path ≢ ""
      → validate_virtual_server_route_for_virtual_server checks is_plus vsr vs_host vs_path ≡ []
      → IsSubrouteOf vs_host vs_path vsr
  unfolding validate_virtual_server_route_for_virtual_server validate_virtual_server_route_spec
      validate_virtual_server_route_host Subroutes
  validate_virtual_server_route-IsSubrouteOf vsr vs_host vs_path some_host some_path h =
      let path = new_path "spec" in
      let names = (validate_upstreams checks is_plus vsr.upstreams (child path "upstreams")).1 in
      let (host, h₁) =
        append-[]
          (validate_virtual_server_route_host checks is_plus vsr.host vs_host (child path "host")) _
          h in
      let (_, same) = append-[] (validate_host checks vsr.host (child path "host")) _ host in
      let (ups, subroutes) =
        append-[] (validate_upstreams checks is_plus vsr.upstreams (child path "upstreams")).0 _
          h₁ in
      let (distinct, known) =
        validate_upstreams-names checks is_plus vsr.upstreams (child path "upstreams") ups in
      let (paths, only, each) =
        validate_virtual_server_route_subroutes-Subroutes vsr.subroutes (child path "subroutes")
          names vs_path vsr.meta.namespace some_path subroutes in
      let parts = λ (r : Route) (at : In r vsr.subroutes).
        validate_route-parts checks is_plus r (each r at).0.0 names true vsr.meta.namespace
          (each r at).0.1 in
      record {
        host = elim (Bool-cases (vsr.host == vs_host)) [
          | inl e ↦ (eq_iff vsr.host vs_host).0 e
          | inr e ↦ elim (Bool-cases (vs_host == "")) [
            | inl f ↦ absurd (some_host ((eq_iff vs_host "").0 f))
            | inr f ↦ absurd (ground (arith, rw (e, f) at same))
          ]
        ];
        upstreams = distinct;
        paths = paths;
        declared = λ r at x i. known x ((parts r at).0 x i);
        ends = λ r at.
            validate_route_reference-[] r.route (child (each r at).0.0 "route") (parts r at).3;
        only = only;
        accepted = λ r at. (each r at).1;
      }

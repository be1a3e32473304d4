-- ===== src/CustomResources/Servers/Stored.antt =====
-- The VirtualServers of a Configuration whose validator is that of pkg/apis/configuration/validation.
use kubernetes_ingress.Prelude.{
  String, ◌≡◌, ◌⊎◌, refl, sym, ap, ◌∙◌, inl, inr, ◌==◌, Bool, none, some, List, [], ◌∷◌, In, lookup,
  Bool-cases, Option-cases,
}
use kubernetes_ingress.Api.{Route, VirtualServer, VirtualServerRoute}
use kubernetes_ingress.Validation.Errors.{ErrorList}
use kubernetes_ingress.Configuration.{Configuration}
use kubernetes_ingress.Configuration.Hosts.{build_virtual_server_routes, vsr_key}
use kubernetes_ingress.Configuration.Operations.Reachable.{Reachable, Reachable-IsValid}
use kubernetes_ingress.CustomResources.Checks.{Checks}
use kubernetes_ingress.CustomResources.Servers.{
  to_aggregate, new_virtual_server_validator, validate_virtual_server,
  validate_virtual_server_route_for_virtual_server,
}
use kubernetes_ingress.CustomResources.Servers.Accepted.{
  IsWellFormed, validate_virtual_server-IsWellFormed,
}
use kubernetes_ingress.CustomResources.Servers.Subroutes.{
  IsSubrouteOf, validate_virtual_server_route-IsSubrouteOf,
}

-- One of the routes, under whose path the VirtualServerRoute passed the validation.
abbrev Attached : Configuration → VirtualServer → List Route → VirtualServerRoute → Type 0
Attached c vs routes vsr =
    (r : Route) × In r routes
    × (c.virtual_server_validator.validate_virtual_server_route_for_virtual_server vsr vs.host
          r.path
        ≡ none)

-- A VirtualServerRoute that is attached comes from a route that refers to it and passed the validation.
build_virtual_server_routes-In :
    (c : Configuration) (vs : VirtualServer) (routes : List Route) (vsr : VirtualServerRoute)
    → In vsr (build_virtual_server_routes c vs routes).0
    → Attached c vs routes vsr
unfolding build_virtual_server_routes
build_virtual_server_routes-In c vs [] vsr i = absurd i
build_virtual_server_routes-In c vs (r ∷ routes) vsr i =
    let check = c.virtual_server_validator.validate_virtual_server_route_for_virtual_server in
    let later : In vsr (build_virtual_server_routes c vs routes).0
        → Attached c vs (r ∷ routes) vsr =
      λ j. let (x, at, ok) = build_virtual_server_routes-In c vs routes vsr j in (x, inr at, ok) in
    elim (Bool-cases (r.route == "")) [
      | inl e ↦ later (rw e at i)
      | inr e ↦ elim (Option-cases (lookup (vsr_key vs r) c.virtual_server_routes)) [
        | inl n ↦ later (rw (e, n) at i)
        | inr (w, l) ↦ elim (Option-cases (check w vs.host r.path)) [
          | inr (err, n) ↦ later (rw (e, l, n) at i)
          | inl n ↦
              let at : (vsr ≡ w) ⊎ In vsr (build_virtual_server_routes c vs routes).0 =
                rw (e, l, n) at i in
              elim at [
                | inl z ↦ (r, inl refl, ap (λ y. check y vs.host r.path) z ∙ n)
                | inr j ↦ later j
              ]
        ]
      ]
    ]

module _ (checks : Checks) (is_plus : Bool) (message : ErrorList → String) where
  to_aggregate-none :
      (errs : ErrorList) → to_aggregate checks is_plus message errs ≡ none → errs ≡ []
  unfolding to_aggregate
  to_aggregate-none [] h = refl
  to_aggregate-none (e ∷ es) h = cc

  -- In a reachable Configuration with this validator, each stored VirtualServer is well formed, and each
  -- VirtualServerRoute that is attached to it has its host, upstreams of different names, and subroutes of
  -- different paths that refer to those upstreams alone. For the path of one of its routes, the paths of the
  -- subroutes are that path if it is a regular expression or an exact match; if it is a prefix, they start
  -- with it or are any regular expressions or exact matches.
  pub Reachable-IsWellFormed :
      (aggregate : ErrorList → String) (c : Configuration) (k : String) (vs : VirtualServer)
      → Reachable aggregate c
      → c.virtual_server_validator ≡ new_virtual_server_validator checks is_plus message
      → lookup k c.virtual_servers ≡ some vs
      → IsWellFormed vs
        × ((vsr : VirtualServerRoute)
            → In vsr (build_virtual_server_routes c vs vs.routes).0
            → (r : Route) × In r vs.routes × IsSubrouteOf vs.host r.path vsr)
  unfolding new_virtual_server_validator
  Reachable-IsWellFormed aggregate c k vs reachable same stored =
      let valid = (Reachable-IsValid aggregate c reachable).virtual_server k vs stored in
      let passed : to_aggregate checks is_plus message (validate_virtual_server checks is_plus vs)
          ≡ none =
        ap (λ v. v.validate_virtual_server vs) (sym same) ∙ valid.2 in
      let formed =
        validate_virtual_server-IsWellFormed checks is_plus vs (to_aggregate-none _ passed) in
      (
        formed,
        λ vsr i.
            let (r, at, ok) = build_virtual_server_routes-In c vs vs.routes vsr i in
            let accepted : to_aggregate checks is_plus message (
                  validate_virtual_server_route_for_virtual_server checks is_plus vsr vs.host
                    r.path)
                ≡ none =
              ap (λ v. v.validate_virtual_server_route_for_virtual_server vsr vs.host r.path)
                (sym same)
              ∙ ok in
            (
              r,
              at,
              validate_virtual_server_route-IsSubrouteOf checks is_plus vsr vs.host r.path
                  formed.host (formed.path r at) (to_aggregate-none _ accepted),
            ),
      )

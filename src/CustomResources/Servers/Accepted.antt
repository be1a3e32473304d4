-- ===== src/CustomResources/Servers/Accepted.antt =====
-- What a VirtualServer without errors is.
use kubernetes_ingress.Prelude.{
  String, ◌≡◌, ◌≢◌, eq_iff, Bool, false, List, [], map, In, Distinct, append-[], arith,
}
use kubernetes_ingress.Api.{Route, Upstream, VirtualServer}
use kubernetes_ingress.Validation.Errors.{FieldPath, new_path, child}
use kubernetes_ingress.CustomResources.Checks.{Checks}
use kubernetes_ingress.CustomResources.Fields.{
  validate_route_path, validate_host, validate_tls, validate_policies,
}
use kubernetes_ingress.CustomResources.Upstreams.{validate_upstreams}
use kubernetes_ingress.CustomResources.Upstreams.Names.{validate_upstreams-names}
use kubernetes_ingress.CustomResources.Routes.{validate_route}
use kubernetes_ingress.CustomResources.Routes.Referenced.{
  AllIn, route_upstreams, validate_route-parts,
}
use kubernetes_ingress.CustomResources.Servers.{
  validate_virtual_server_spec, validate_virtual_server, validate_virtual_server_routes,
  validate_server_route,
}
use kubernetes_ingress.CustomResources.Servers.Paths.{
  validate_paths_from-Distinct, ChoosesOne, field_count-ChoosesOne,
}

-- The names of upstreams.
abbrev pub names_of : List Upstream → List String
names_of us = map (λ u. u.name) us

-- A VirtualServer that has a host, whose upstreams and routes are told apart by their names and paths,
-- and whose routes choose one thing to do, with declared upstreams.
pub record IsWellFormed (vs : VirtualServer) : Type 0 where
  pub host : vs.host ≢ ""
  pub upstreams : Distinct (names_of vs.upstreams)
  pub paths : Distinct (map (λ r. r.path) vs.routes)
  pub declared : (r : Route) → In r vs.routes → AllIn (route_upstreams r) (names_of vs.upstreams)
  pub path : (r : Route) → In r vs.routes → r.path ≢ ""
  pub chooses : (r : Route) → In r vs.routes → ChoosesOne r

pub validate_host-≢ :
    (checks : Checks) (host : String) (path : FieldPath)
    → validate_host checks host path ≡ []
    → host ≢ ""
unfolding validate_host
validate_host-≢ checks host path h e = absurd (ground (arith, (eq_iff host "").1 e))

validate_route-path :
    (checks : Checks) (is_plus : Bool) (r : Route) (path : FieldPath) (names : List String)
    (namespace : String)
    → validate_route checks is_plus r path names false namespace ≡ []
    → r.path ≢ ""
unfolding validate_route validate_route_path
validate_route-path checks is_plus r path names namespace h e =
    let here = (append-[] (validate_route_path checks r.path (child path "path")) _ h).0 in
    absurd (ground (arith, rw e at here))

-- A VirtualServer that passes the validation has a host, upstreams of different names, routes of
-- different paths that are not empty, each with exactly one of an action, splits and a reference, and each upstream that a
-- route refers to, in its action, splits or matches, is declared.
pub validate_virtual_server-IsWellFormed :
    (checks : Checks) (is_plus : Bool) (vs : VirtualServer)
    → validate_virtual_server checks is_plus vs ≡ []
    → IsWellFormed vs
unfolding validate_virtual_server validate_virtual_server_spec validate_virtual_server_routes
    validate_server_route
validate_virtual_server-IsWellFormed checks is_plus vs h =
    let path = new_path "spec" in
    let names = (validate_upstreams checks is_plus vs.upstreams (child path "upstreams")).1 in
    let (host, h₁) = append-[] (validate_host checks vs.host (child path "host")) _ h in
    let (_, h₂) = append-[] (validate_tls checks vs.tls (child path "tls")) _ h₁ in
    let (_, h₃) =
      append-[] (validate_policies checks vs.policies (child path "policies") vs.meta.namespace) _
        h₂ in
    let (ups, routes) =
      append-[] (validate_upstreams checks is_plus vs.upstreams (child path "upstreams")).0 _ h₃ in
    let (distinct, known) =
      validate_upstreams-names checks is_plus vs.upstreams (child path "upstreams") ups in
    let (paths, each) =
      validate_paths_from-Distinct (validate_server_route checks is_plus names vs.meta.namespace)
        vs.routes (child path "routes") routes in
    record {
      host = validate_host-≢ checks vs.host (child path "host") host;
      upstreams = distinct;
      paths = paths;
      declared = λ r at x i.
          let (here, ok) = each r at in
          known x
            ((validate_route-parts checks is_plus r here names false vs.meta.namespace ok).0 x i);
      path = λ r at.
          let (here, ok) = each r at in
          validate_route-path checks is_plus r here names vs.meta.namespace ok;
      chooses = λ r at.
          let (here, ok) = each r at in
          field_count-ChoosesOne checks is_plus r
            (validate_route-parts checks is_plus r here names false vs.meta.namespace ok).1;
    }

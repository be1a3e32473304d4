-- ===== src/CustomResources/Servers.antt =====
-- pkg/apis/configuration/validation/virtualserver.go: whole VirtualServers and VirtualServerRoutes.
pub mod Paths
pub mod Accepted
pub mod Subroutes
pub mod Stored
use mathlib.Core.List.{◌++◌}
use kubernetes_ingress.Prelude.{
  ℕ, suc, String, ◌==◌, starts_with, Bool, true, false, not, ◌&&◌, ◌||◌, Option, none, some, List,
  [], ◌∷◌, length, eqb, ltb, if◌then◌else◌,
}
use kubernetes_ingress.Api.{Route, VirtualServer, VirtualServerRoute}
use kubernetes_ingress.Parsing.Strings.{contains}
use kubernetes_ingress.Validation.Errors.{
  FieldPath, new_path, child, index, text, must_be_equal_to, must_start_with, duplicate, invalid,
  ErrorList,
}
use kubernetes_ingress.Configuration.{VirtualServerValidator}
use kubernetes_ingress.CustomResources.Checks.{Checks}
use kubernetes_ingress.CustomResources.Fields.{validate_host, validate_policies, validate_tls}
use kubernetes_ingress.CustomResources.Upstreams.{validate_upstreams}
use kubernetes_ingress.CustomResources.Routes.{validate_route}

-- The errors of a route, or of its path if it is repeated, and the paths seen with it.
unfoldable pub add_path : ErrorList → String → FieldPath → List String → ErrorList × List String
unfolding contains
add_path route_errs p path all_paths =
    if ltb 0 (length route_errs)
    then (route_errs, all_paths)
    else if contains all_paths p
    then (duplicate (child path "path") p ∷ [], all_paths)
    else ([], p ∷ all_paths)

-- The loop over routes from index `i`, with the paths seen; `errors_of` are those of one route.
unfoldable pub validate_paths_from :
    (Route → FieldPath → ErrorList) → ℕ → List String → List Route → FieldPath → ErrorList
unfolding add_path
validate_paths_from errors_of i all_paths [] path = []
validate_paths_from errors_of i all_paths (r ∷ routes) path =
    let added = add_path (errors_of r (index path i)) r.path (index path i) all_paths in
    let rest = validate_paths_from errors_of (suc i) added.1 routes path in added.0 ++ rest

-- `isRegexOrExactMatch`
unfoldable pub is_regex_or_exact_match : String → Bool
is_regex_or_exact_match path = starts_with path "~" || starts_with path "="

module _ (checks : Checks) (is_plus : Bool) where
  -- The errors of a route in the loop of `validateVirtualServerRoutes`.
  unfoldable pub validate_server_route : List String → String → Route → FieldPath → ErrorList
  unfolding validate_route
  validate_server_route upstream_names namespace r path =
      validate_route checks is_plus r path upstream_names false namespace

  -- `validateVirtualServerRoutes`
  unfoldable pub validate_virtual_server_routes :
      List Route → FieldPath → List String → String → ErrorList
  unfolding validate_paths_from validate_server_route
  validate_virtual_server_routes routes path upstream_names namespace =
      validate_paths_from (validate_server_route upstream_names namespace) 0 [] routes path

  -- `validateVirtualServerSpec`, and `ValidateVirtualServer` before the errors are joined.
  unfoldable pub validate_virtual_server_spec : VirtualServer → FieldPath → ErrorList
  unfolding validate_host validate_tls validate_policies validate_upstreams
      validate_virtual_server_routes
  validate_virtual_server_spec vs path =
      let upstreams = validate_upstreams checks is_plus vs.upstreams (child path "upstreams") in
      validate_host checks vs.host (child path "host")
      ++ (validate_tls checks vs.tls (child path "tls")
          ++ (validate_policies checks vs.policies (child path "policies") vs.meta.namespace
              ++ (upstreams.0
                  ++ validate_virtual_server_routes vs.routes (child path "routes") upstreams.1
                      vs.meta.namespace)))

  unfoldable pub validate_virtual_server : VirtualServer → ErrorList
  unfolding validate_virtual_server_spec
  validate_virtual_server vs = validate_virtual_server_spec vs (new_path "spec")

  -- `validateVirtualServerRouteHost`
  unfoldable pub validate_virtual_server_route_host : String → String → FieldPath → ErrorList
  unfolding validate_host
  validate_virtual_server_route_host host virtual_server_host path =
      validate_host checks host path
      ++ (if not (virtual_server_host == "") && not (host == virtual_server_host)
          then invalid path host (must_be_equal_to virtual_server_host) ∷ []
          else [])

  -- The errors of a subroute in the loop of `validateVirtualServerRouteSubroutes`.
  unfoldable pub validate_subroute : List String → String → String → Route → FieldPath → ErrorList
  unfolding validate_route is_regex_or_exact_match
  validate_subroute upstream_names vs_path namespace r path =
      validate_route checks is_plus r path upstream_names true namespace
      ++ (if not (vs_path == "")
            && (not (starts_with r.path vs_path) && not (is_regex_or_exact_match r.path))
          then invalid path r.path (must_start_with vs_path) ∷ []
          else [])

  -- The only subroute of a path that is a regular expression or an exact match.
  unfoldable pub validate_only_subroute :
      List Route → FieldPath → List String → String → String → ErrorList
  unfolding validate_route
  validate_only_subroute (r ∷ []) path upstream_names vs_path namespace =
      if r.path == vs_path
      then validate_route checks is_plus r (index path 0) upstream_names true namespace
      else invalid (child (index path 0) "path") r.path
          (text "must have the same path as the referenced VirtualServer route path")
        ∷ []
  validate_only_subroute routes path upstream_names vs_path namespace =
      invalid path "subroutes"
        (text "must have only one subroute if regex match or exact match are being used")
      ∷ []

  -- `validateVirtualServerRouteSubroutes`
  unfoldable pub validate_virtual_server_route_subroutes :
      List Route → FieldPath → List String → String → String → ErrorList
  unfolding is_regex_or_exact_match validate_only_subroute validate_paths_from validate_subroute
  validate_virtual_server_route_subroutes routes path upstream_names vs_path namespace =
      if is_regex_or_exact_match vs_path
      then validate_only_subroute routes path upstream_names vs_path namespace
      else validate_paths_from (validate_subroute upstream_names vs_path namespace) 0 [] routes path

  -- `validateVirtualServerRouteSpec`
  unfoldable pub validate_virtual_server_route_spec :
      VirtualServerRoute → FieldPath → String → String → ErrorList
  unfolding validate_virtual_server_route_host validate_upstreams
      validate_virtual_server_route_subroutes
  validate_virtual_server_route_spec vsr path virtual_server_host vs_path =
      let upstreams = validate_upstreams checks is_plus vsr.upstreams (child path "upstreams") in
      validate_virtual_server_route_host vsr.host virtual_server_host (child path "host")
      ++ (upstreams.0
          ++ validate_virtual_server_route_subroutes vsr.subroutes (child path "subroutes")
              upstreams.1 vs_path vsr.meta.namespace)

  -- `ValidateVirtualServerRoute` and `ValidateVirtualServerRouteForVirtualServer`
  unfoldable pub validate_virtual_server_route : VirtualServerRoute → ErrorList
  unfolding validate_virtual_server_route_spec
  validate_virtual_server_route vsr =
      validate_virtual_server_route_spec vsr (new_path "spec") "" "/"

  unfoldable pub validate_virtual_server_route_for_virtual_server :
      VirtualServerRoute → String → String → ErrorList
  unfolding validate_virtual_server_route_spec
  validate_virtual_server_route_for_virtual_server vsr virtual_server_host vs_path =
      validate_virtual_server_route_spec vsr (new_path "spec") virtual_server_host vs_path

  -- `ToAggregate`: nil if there are no errors.
  unfoldable pub to_aggregate : (ErrorList → String) → ErrorList → Option String
  to_aggregate message [] = none
  to_aggregate message (e ∷ es) = some (message (e ∷ es))

  -- `VirtualServerValidator` as the configuration calls it; `message` joins the texts of the errors.
  unfoldable pub new_virtual_server_validator : (ErrorList → String) → VirtualServerValidator
  unfolding to_aggregate validate_virtual_server validate_virtual_server_route
      validate_virtual_server_route_for_virtual_server
  new_virtual_server_validator message = record {
    validate_virtual_server = λ vs. to_aggregate message (validate_virtual_server vs);
    validate_virtual_server_route = λ vsr. to_aggregate message (validate_virtual_server_route vsr);
    validate_virtual_server_route_for_virtual_server = λ vsr host vs_path.
        to_aggregate message (validate_virtual_server_route_for_virtual_server vsr host vs_path);
  }

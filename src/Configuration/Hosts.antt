-- ===== src/Configuration/Hosts.antt =====
-- `buildHostsAndResources` and `buildVirtualServerRoutes`: who gets each host. The pointers to
-- resources are positions in `heap`, where the objects are in order of their creation; `hosts` and
-- `resources` hold such pointers until the maps are returned. A panic is `none`.
pub mod Effects
pub mod Fairness
pub mod Turns
pub mod Claims
pub mod Registry
pub mod Build
pub mod Built
pub mod Keyed
pub mod Consistent
pub mod Steps
pub mod Returned
use kubernetes_ingress.Prelude.{
  ℕ, String, ◌++◌, ◌==◌, Bool, true, false, not, Option, none, some, List, [], ◌∷◌, StrMap, lookup,
  insert, keys, sorted_values, length, append, get_elem?, update, fold_while, ◌>>=◌, if◌then◌else◌,
}
use text.Mathlib.Text.{find?}
use kubernetes_ingress.Api.{
  Ingress, IngressRule, VirtualServer, VirtualServerRoute, Route, is_minion, is_master,
}
use kubernetes_ingress.Resource.{
  Resource, full_ingress, full_virtual_server, new_regular_full_ingress, new_master_full_ingress,
  new_full_virtual_server, get_key_with_kind, acquire_host, release_host, add_warning, wins,
}
use kubernetes_ingress.Configuration.{Configuration}
use kubernetes_ingress.Configuration.Minions.{first_host, build_full_minions}

pub record HostBuild : Type 0 where
  pub heap : List Resource
  pub hosts : StrMap ℕ
  pub resources : StrMap ℕ

unfoldable pub taken_warning : String → String
taken_warning host = "host " ++ host ++ " is taken by another resource"

-- `newHosts[host] = resource` and `resource.AcquireHost(host)`
unfoldable pub give_host : ℕ → String → HostBuild → HostBuild
unfolding acquire_host update
give_host a host s = record s {
  hosts = insert host a s.hosts;
  heap = update a (acquire_host host) s.heap;
}

-- A method call on the object behind a pointer.
unfoldable pub call : ℕ → (Resource → Resource) → HostBuild → HostBuild
unfolding update
call a method s = record s { heap = update a method s.heap }

-- One turn of the loop over the rules of the Ingress resource at `a`.
unfoldable pub claim_ingress_host : ℕ → HostBuild → IngressRule → Option HostBuild
claim_ingress_host a s rule = elim (lookup rule.host s.hosts) [
  | none ↦ some (give_host a rule.host s)
  | some h ↦ get_elem? s.heap h >>= λ holder. get_elem? s.heap a >>= λ resource.
      let warning = taken_warning rule.host in
      if not (wins holder resource)
      then some
          (give_host a rule.host (call h (add_warning warning) (call h (release_host rule.host) s)))
      else some (call a (add_warning warning) s)
]

-- The same for the one host of a VirtualServer resource; here the warning comes last.
unfoldable pub claim_virtual_server_host : ℕ → HostBuild → String → Option HostBuild
claim_virtual_server_host a s host = elim (lookup host s.hosts) [
  | none ↦ some (give_host a host s)
  | some h ↦ get_elem? s.heap h >>= λ holder. get_elem? s.heap a >>= λ resource.
      let warning = taken_warning host in
      if not (wins holder resource)
      then some (call h (add_warning warning) (give_host a host (call h (release_host host) s)))
      else some (call a (add_warning warning) s)
]

-- `newResources[resource.GetKeyWithKind()] = resource` for a new object.
unfoldable pub allocate : Resource → HostBuild → HostBuild
unfolding get_key_with_kind
allocate r s = record s {
  heap = append s.heap r;
  resources = insert (get_key_with_kind r) (length s.heap) s.resources;
}

-- The resource for a regular or master Ingress.
unfoldable pub new_full_ingress : Configuration → Ingress → Option Resource
unfolding new_regular_full_ingress new_master_full_ingress build_full_minions first_host
new_full_ingress c ing =
    if is_master ing
    then (first_host ing >>= λ host. build_full_minions c host >>= λ built.
        some (full_ingress (new_master_full_ingress ing built.0 built.1)))
    else some (full_ingress (new_regular_full_ingress ing))

-- Step 1: one turn of the loop over the Ingresses.
unfoldable pub add_ingress : Configuration → HostBuild → Ingress → Option HostBuild
add_ingress c s ing =
    if is_minion ing
    then some s
    else (new_full_ingress c ing >>= λ resource.
        fold_while (claim_ingress_host (length s.heap)) (allocate resource s) ing.rules)

-- `strings.Contains(r.Route, "/")`
unfoldable pub contains_slash : String → Bool
contains_slash s = elim (find? s "/") [ none ↦ false | some _ ↦ true ]

-- `vsrKey` of a route: one without a namespace is in the namespace of the VirtualServer.
unfoldable pub vsr_key : VirtualServer → Route → String
unfolding contains_slash
vsr_key vs r = if contains_slash r.route then r.route else vs.meta.namespace ++ "/" ++ r.route

-- `buildVirtualServerRoutes`
unfoldable pub build_virtual_server_routes :
    Configuration → VirtualServer → List Route → List VirtualServerRoute × List String
unfolding vsr_key
build_virtual_server_routes c vs [] = ([], [])
build_virtual_server_routes c vs (r ∷ routes) =
    let (vsrs, warnings) = build_virtual_server_routes c vs routes in
    if r.route == ""
    then (vsrs, warnings)
    else (let key = vsr_key vs r in
        elim (lookup key c.virtual_server_routes) [
          | none ↦ (vsrs, ("VirtualServerRoute " ++ key ++ " doesn't exist or invalid") ∷ warnings)
          | some vsr ↦
              elim (c.virtual_server_validator.validate_virtual_server_route_for_virtual_server vsr
                vs.host r.path) [
                  | none ↦ (vsr ∷ vsrs, warnings)
                  | some err ↦
                      (vsrs, ("VirtualServerRoute " ++ key ++ " is invalid: " ++ err) ∷ warnings)
                ]
        ])

-- Step 2: one turn of the loop over the VirtualServers.
unfoldable pub add_virtual_server : Configuration → HostBuild → VirtualServer → Option HostBuild
add_virtual_server c s vs =
    let (vsrs, warnings) = build_virtual_server_routes c vs vs.routes in
    claim_virtual_server_host (length s.heap)
      (allocate (full_virtual_server (new_full_virtual_server vs vsrs warnings)) s) vs.host

-- Both steps, with the pointers still in place.
unfoldable pub build_hosts : Configuration → Option HostBuild
unfolding add_ingress add_virtual_server new_full_ingress allocate claim_ingress_host
    claim_virtual_server_host build_virtual_server_routes new_full_virtual_server fold_while
    give_host call release_host add_warning wins taken_warning
build_hosts c =
    fold_while (add_ingress c) (record { heap = []; hosts = []; resources = [] })
      (sorted_values c.ingresses)
    >>= λ s. fold_while (add_virtual_server c) s (sorted_values c.virtual_servers)

-- The objects at the given keys of a map of pointers.
unfoldable pub dereference_keys : List Resource → StrMap ℕ → List String → Option (StrMap Resource)
dereference_keys heap m [] = some []
dereference_keys heap m (k ∷ ks) = lookup k m >>= λ a.
    get_elem? heap a >>= λ r. dereference_keys heap m ks >>= λ rest. some ((k, r) ∷ rest)

-- A map of pointers as a map of the objects that they point to.
unfoldable pub dereference : List Resource → StrMap ℕ → Option (StrMap Resource)
unfolding dereference_keys keys
dereference heap m = dereference_keys heap m (keys m)

-- `buildHostsAndResources`
unfoldable pub build_hosts_and_resources :
    Configuration → Option (StrMap Resource × StrMap Resource)
unfolding build_hosts dereference
build_hosts_and_resources c = build_hosts c >>= λ s. dereference s.heap s.hosts >>= λ hosts.
    dereference s.heap s.resources >>= λ resources. some (hosts, resources)

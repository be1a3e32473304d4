-- ===== src/Configuration/Operations.antt =====
-- `rebuild` and the operations on Ingresses, VirtualServers and VirtualServerRoutes. An operation
-- returns the new Configuration with the changes and problems that it reports, or `none` where the
-- code panics. The text of an aggregated error list is a parameter, a function of k8s.io/apimachinery.
pub mod Built
pub mod Deployed
pub mod Effects
pub mod Stored
pub mod Reachable
use kubernetes_ingress.Prelude.{
  String, ◌++◌, ◌==◌, Bool, true, false, Option, none, some, List, [], ◌∷◌, StrMap, lookup, insert,
  delete, append, ◌>>=◌, if◌then◌else◌,
}
use kubernetes_ingress.Api.{
  ObjectMeta, Object, ingress_object, virtual_server_object, virtual_server_route_object, Ingress,
  VirtualServer, VirtualServerRoute, get_resource_key, get_resource_key_with_kind, ingress_kind,
  virtual_server_kind,
}
use kubernetes_ingress.Validation.{validate_ingress}
use kubernetes_ingress.Validation.Errors.{ErrorList}
use kubernetes_ingress.Resource.{Resource, get_key_with_kind}
use kubernetes_ingress.Configuration.{Configuration, ResourceChange, ConfigurationProblem}
use kubernetes_ingress.Configuration.Hosts.{build_hosts_and_resources}
use kubernetes_ingress.Configuration.Changes.{
  detect_changes_in_hosts, create_resource_changes, squash_resource_changes, key_of,
}
use kubernetes_ingress.Configuration.Problems.{
  Problems, add_problems_for_resources_without_active_host, add_problems_for_orphan_minions,
  add_problems_for_orphan_or_ignored_vsrs, detect_changes_in_problems,
}

pub record Outcome : Type 0 where
  pub configuration : Configuration
  pub changes : List ResourceChange
  pub problems : List ConfigurationProblem

-- The loop after the squashing: each change refers to the latest version of its resource.
unfoldable pub refer_to_latest : StrMap Resource → ResourceChange → ResourceChange
unfolding get_key_with_kind lookup
refer_to_latest resources change = elim (lookup (key_of change) resources) [
  | none ↦ change
  | some r ↦ record change { resource = r }
]

unfoldable pub refer_all : StrMap Resource → List ResourceChange → List ResourceChange
unfolding refer_to_latest
refer_all resources [] = []
refer_all resources (change ∷ changes) =
    refer_to_latest resources change ∷ refer_all resources changes

-- The changes from the old hosts to the new ones.
unfoldable pub changes_between : StrMap Resource → StrMap Resource → Option (List ResourceChange)
unfolding detect_changes_in_hosts create_resource_changes squash_resource_changes
changes_between hosts new_hosts =
    let (removed, updated, added) = detect_changes_in_hosts hosts new_hosts in
    create_resource_changes hosts removed updated added new_hosts >>= squash_resource_changes

-- The problems of the new hosts and resources.
unfoldable pub problems_of : Configuration → StrMap Resource → StrMap Resource → Option Problems
unfolding add_problems_for_resources_without_active_host add_problems_for_orphan_minions
    add_problems_for_orphan_or_ignored_vsrs
problems_of c new_hosts new_resources =
    add_problems_for_orphan_minions new_hosts c.ingresses
      (add_problems_for_resources_without_active_host new_hosts new_resources [])
    >>= λ problems.
        some (add_problems_for_orphan_or_ignored_vsrs new_hosts c.virtual_server_routes problems)

-- `rebuild`
unfoldable pub rebuild : Configuration → Option Outcome
unfolding build_hosts_and_resources changes_between refer_all problems_of detect_changes_in_problems
rebuild c = build_hosts_and_resources c >>= λ built. changes_between c.hosts built.0 >>= λ changes.
    problems_of c built.0 built.1 >>= λ new_problems. some (record {
      configuration = record c { hosts = built.0; problems = new_problems };
      changes = refer_all built.1 changes;
      problems = detect_changes_in_problems new_problems c.problems;
    })

-- `changes[i].Error = …` at the first change of the resource with the key; `none` if there is none.
unfoldable pub set_error : String → String → List ResourceChange → Option (List ResourceChange)
unfolding get_key_with_kind
set_error key error [] = none
set_error key error (change ∷ changes) =
    let rest = set_error key error changes in
    if key_of change == key
    then some (record change { error = error } ∷ changes)
    else (rest >>= λ later. some (change ∷ later))

unfoldable pub rejected : Object → String → ConfigurationProblem
rejected object message = record {
  object = object;
  is_error = true;
  reason = "Rejected";
  message = message;
}

-- What a rejected Ingress or VirtualServer adds to a rebuild: the error at its change, or a problem.
unfoldable pub report : Option String → String → Object → (String → String) → Outcome → Outcome
unfolding set_error rejected
report none key object message out = out
report (some error) key object message out = elim (set_error key error out.changes) [
  | some changes ↦ record out { changes = changes }
  | none ↦ record out { problems = append out.problems (rejected object (message error)) }
]

abbrev identity : String → String
identity s = s

abbrev rejection : String → ObjectMeta → String → String
rejection kind meta error =
    kind ++ " " ++ get_resource_key meta ++ " was rejected with error: " ++ error

-- An object of the wrong class or with an error is deleted, any other is stored.
unfoldable pub store : {V : Type 0} → Bool → Option String → String → V → StrMap V → StrMap V
unfolding delete
store false error key v m = delete key m
store true (some error) key v m = delete key m
store true none key v m = insert key v m

-- The error is nil for an object that was not validated.
unfoldable pub if_class : Bool → Option String → Option String
if_class false error = none
if_class true error = error

module _ (aggregate : ErrorList → String) where
  -- `validateIngress(ing, c.isPlus).ToAggregate()`
  unfoldable pub ingress_error : Ingress → Bool → Option String
  unfolding validate_ingress
  ingress_error ing is_plus = elim (validate_ingress ing is_plus) [
    | [] ↦ none
    | e ∷ es ↦ some (aggregate (e ∷ es))
  ]

  -- The state of `AddOrUpdateIngress` before `rebuild`.
  unfoldable pub store_ingress : Ingress → Configuration → Configuration
  unfolding ingress_error store
  store_ingress ing c = record c {
    ingresses =
        store (c.has_correct_ingress_class (ingress_object ing)) (ingress_error ing c.is_plus)
          (get_resource_key ing.meta) ing c.ingresses;
  }

  -- `AddOrUpdateIngress`
  unfoldable pub add_or_update_ingress : Ingress → Configuration → Option Outcome
  unfolding store_ingress rebuild report if_class
  add_or_update_ingress ing c =
      let error =
        if_class (c.has_correct_ingress_class (ingress_object ing)) (ingress_error ing c.is_plus) in
      rebuild (store_ingress ing c) >>= λ out. some (
        report error (get_resource_key_with_kind ingress_kind ing.meta) (ingress_object ing)
          identity out)

abbrev pub unchanged : Configuration → Outcome
unchanged c = record { configuration = c; changes = []; problems = [] }

-- `DeleteIngress`
unfoldable pub delete_ingress : String → Configuration → Option Outcome
unfolding rebuild delete lookup
delete_ingress key c = elim (lookup key c.ingresses) [
  | none ↦ some (unchanged c)
  | some _ ↦ rebuild (record c { ingresses = delete key c.ingresses })
]

abbrev virtual_server_error : VirtualServer → Configuration → Option String
virtual_server_error vs c = c.virtual_server_validator.validate_virtual_server vs

-- The state of `AddOrUpdateVirtualServer` before `rebuild`.
unfoldable pub store_virtual_server : VirtualServer → Configuration → Configuration
unfolding store
store_virtual_server vs c = record c {
  virtual_servers =
      store (c.has_correct_ingress_class (virtual_server_object vs)) (virtual_server_error vs c)
        (get_resource_key vs.meta) vs c.virtual_servers;
}

-- `AddOrUpdateVirtualServer`
unfoldable pub add_or_update_virtual_server : VirtualServer → Configuration → Option Outcome
unfolding store_virtual_server rebuild report if_class
add_or_update_virtual_server vs c =
    let error =
      if_class (c.has_correct_ingress_class (virtual_server_object vs))
        (virtual_server_error vs c) in
    rebuild (store_virtual_server vs c) >>= λ out. some (
      report error (get_resource_key_with_kind virtual_server_kind vs.meta)
        (virtual_server_object vs) (rejection "VirtualServer" vs.meta) out)

-- `DeleteVirtualServer`
unfoldable pub delete_virtual_server : String → Configuration → Option Outcome
unfolding rebuild delete lookup
delete_virtual_server key c = elim (lookup key c.virtual_servers) [
  | none ↦ some (unchanged c)
  | some _ ↦ rebuild (record c { virtual_servers = delete key c.virtual_servers })
]

abbrev route_error : VirtualServerRoute → Configuration → Option String
route_error vsr c = c.virtual_server_validator.validate_virtual_server_route vsr

-- The state of `AddOrUpdateVirtualServerRoute` before `rebuild`.
unfoldable pub store_virtual_server_route : VirtualServerRoute → Configuration → Configuration
unfolding store
store_virtual_server_route vsr c = record c {
  virtual_server_routes =
      store (c.has_correct_ingress_class (virtual_server_route_object vsr)) (route_error vsr c)
        (get_resource_key vsr.meta) vsr c.virtual_server_routes;
}

-- The problem of a rejected VirtualServerRoute, which is no resource of its own.
unfoldable pub report_route : Option String → VirtualServerRoute → Outcome → Outcome
unfolding rejected
report_route none vsr out = out
report_route (some error) vsr out = record out {
  problems =
      append out.problems (
        rejected (virtual_server_route_object vsr) (rejection "VirtualServerRoute" vsr.meta error));
}

-- `AddOrUpdateVirtualServerRoute`
unfoldable pub add_or_update_virtual_server_route :
    VirtualServerRoute → Configuration → Option Outcome
unfolding store_virtual_server_route rebuild report_route if_class
add_or_update_virtual_server_route vsr c =
    let error =
      if_class (c.has_correct_ingress_class (virtual_server_route_object vsr))
        (route_error vsr c) in
    rebuild (store_virtual_server_route vsr c) >>= λ out. some (report_route error vsr out)

-- `DeleteVirtualServerRoute`
unfoldable pub delete_virtual_server_route : String → Configuration → Option Outcome
unfolding rebuild delete lookup
delete_virtual_server_route key c = elim (lookup key c.virtual_server_routes) [
  | none ↦ some (unchanged c)
  | some _ ↦ rebuild (record c { virtual_server_routes = delete key c.virtual_server_routes })
]

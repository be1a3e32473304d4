-- ===== src/Configuration/Problems.antt =====
-- The problems that `rebuild` reports: resources without a host, minions without a master, routes
-- without a VirtualServer; and `detectChangesInProblems`.
pub mod Changed
use kubernetes_ingress.Prelude.{
  String, ◌++◌, ◌==◌, Bool, true, false, not, ◌&&◌, Option, none, some, List, [], ◌∷◌, StrMap,
  lookup, insert, keys, get_sorted_keys, sorted_values, any, fold_while, ◌>>=◌, if◌then◌else◌,
}
use kubernetes_ingress.Api.{
  Object, ingress_object, virtual_server_object, virtual_server_route_object, Ingress,
  VirtualServerRoute, is_minion, get_resource_key, get_resource_key_with_kind, ingress_kind,
  virtual_server_route_kind,
}
use kubernetes_ingress.Resource.{
  Resource, full_ingress, full_virtual_server, FullVirtualServer, get_key_with_kind,
}
use kubernetes_ingress.Configuration.{ConfigurationProblem, compare_configuration_problems}
use kubernetes_ingress.Configuration.Minions.{first_host}

abbrev pub Problems : Type 0
Problems = StrMap ConfigurationProblem

unfoldable pub warning_problem : Object → String → String → ConfigurationProblem
warning_problem object reason message = record {
  object = object;
  is_error = false;
  reason = reason;
  message = message;
}

-- A host of the map is marked valid.
unfoldable pub at_least_one_valid_host : StrMap Bool → Bool
unfolding keys lookup
at_least_one_valid_host valid_hosts =
    any (λ h. elim (lookup h valid_hosts) [ none ↦ false | some v ↦ v ]) (keys valid_hosts)

-- One turn of the loop of `addProblemsForResourcesWithoutActiveHost`, with the new hosts.
unfoldable pub problem_without_active_host : StrMap Resource → Problems → Resource → Problems
unfolding at_least_one_valid_host warning_problem get_key_with_kind
problem_without_active_host hosts problems (full_ingress fi) =
    if not (at_least_one_valid_host fi.valid_hosts)
    then insert (get_key_with_kind (full_ingress fi))
        (warning_problem (ingress_object fi.ingress) "Rejected"
          "All hosts are taken by other resources")
        problems
    else problems
problem_without_active_host hosts problems (full_virtual_server fvs) =
    elim (lookup fvs.virtual_server.host hosts) [
      | none ↦ problems
      | some res ↦
          if not (get_key_with_kind res == get_key_with_kind (full_virtual_server fvs))
          then insert (get_key_with_kind (full_virtual_server fvs))
              (warning_problem (virtual_server_object fvs.virtual_server) "Rejected"
                "Host is taken by another resource")
              problems
          else problems
    ]

fold : {A S : Type 0} → (S → A → S) → S → List A → S
fold f s [] = s
fold f s (x ∷ xs) = fold f (f s x) xs

-- `addProblemsForResourcesWithoutActiveHost`
unfoldable pub add_problems_for_resources_without_active_host :
    StrMap Resource → StrMap Resource → Problems → Problems
unfolding problem_without_active_host fold
add_problems_for_resources_without_active_host hosts resources problems =
    fold (problem_without_active_host hosts) problems (sorted_values resources)

-- `!exists || !ok || !fullIngress.IsMaster`
unfoldable pub has_no_master : Option Resource → Bool
has_no_master none = true
has_no_master (some (full_virtual_server fvs)) = true
has_no_master (some (full_ingress fi)) = not fi.is_master

-- One turn of the loop of `addProblemsForOrphanMinions`.
unfoldable pub problem_for_orphan_minion : StrMap Resource → Problems → Ingress → Option Problems
unfolding has_no_master warning_problem first_host
problem_for_orphan_minion hosts problems ing =
    if not (is_minion ing)
    then some problems
    else (first_host ing >>= λ host. some (
        if has_no_master (lookup host hosts)
        then insert (get_resource_key_with_kind ingress_kind ing.meta)
            (warning_problem (ingress_object ing) "NoIngressMasterFound"
              "Ingress master is invalid or doesn't exist")
            problems
        else problems))

-- `addProblemsForOrphanMinions`
unfoldable pub add_problems_for_orphan_minions :
    StrMap Resource → StrMap Ingress → Problems → Option Problems
unfolding problem_for_orphan_minion fold_while
add_problems_for_orphan_minions hosts ingresses problems =
    fold_while (problem_for_orphan_minion hosts) problems (sorted_values ingresses)

-- `vsr.Namespace == v.Namespace && vsr.Name == v.Name` for a route of the VirtualServer
unfoldable pub holds_route : FullVirtualServer → VirtualServerRoute → Bool
holds_route fvs vsr =
    any (λ v. vsr.meta.namespace == v.meta.namespace && vsr.meta.name == v.meta.name)
      fvs.virtual_server_routes

unfoldable pub problem_of_route : Option Resource → VirtualServerRoute → Option ConfigurationProblem
unfolding holds_route warning_problem
problem_of_route none vsr = some (
    warning_problem (virtual_server_route_object vsr) "NoVirtualServerFound"
      "VirtualServer is invalid or doesn't exist")
problem_of_route (some (full_ingress fi)) vsr = some (
    warning_problem (virtual_server_route_object vsr) "NoVirtualServerFound"
      "VirtualServer is invalid or doesn't exist")
problem_of_route (some (full_virtual_server fvs)) vsr =
    if not (holds_route fvs vsr)
    then some (
        warning_problem (virtual_server_route_object vsr) "Ignored" (
          "VirtualServer "
          ++ get_resource_key fvs.virtual_server.meta
          ++ " ignores VirtualServerRoute"))
    else none

-- One turn of the loop of `addProblemsForOrphanOrIgnoredVsrs`.
unfoldable pub problem_for_orphan_or_ignored_vsr :
    StrMap Resource → Problems → VirtualServerRoute → Problems
unfolding problem_of_route
problem_for_orphan_or_ignored_vsr hosts problems vsr =
    elim (problem_of_route (lookup vsr.host hosts) vsr) [
      | none ↦ problems
      | some p ↦ insert (get_resource_key_with_kind virtual_server_route_kind vsr.meta) p problems
    ]

-- `addProblemsForOrphanOrIgnoredVsrs`
unfoldable pub add_problems_for_orphan_or_ignored_vsrs :
    StrMap Resource → StrMap VirtualServerRoute → Problems → Problems
unfolding problem_for_orphan_or_ignored_vsr fold
add_problems_for_orphan_or_ignored_vsrs hosts routes problems =
    fold (problem_for_orphan_or_ignored_vsr hosts) problems (sorted_values routes)

-- A problem is news if its key had none, or another one.
unfoldable pub is_new_problem : Problems → String → ConfigurationProblem → Bool
is_new_problem old_problems key new_p = elim (lookup key old_problems) [
  | none ↦ true
  | some old_p ↦ not (compare_configuration_problems new_p old_p)
]

unfoldable pub changed_problems : Problems → Problems → List String → List ConfigurationProblem
unfolding is_new_problem
changed_problems new_problems old_problems [] = []
changed_problems new_problems old_problems (key ∷ keys) =
    let rest = changed_problems new_problems old_problems keys in
    elim (lookup key new_problems) [
      | none ↦ rest
      | some new_p ↦ if is_new_problem old_problems key new_p then new_p ∷ rest else rest
    ]

-- `detectChangesInProblems`
unfoldable pub detect_changes_in_problems : Problems → Problems → List ConfigurationProblem
unfolding changed_problems get_sorted_keys
detect_changes_in_problems new_problems old_problems =
    changed_problems new_problems old_problems (get_sorted_keys new_problems)

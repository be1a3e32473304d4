-- ===== src/Configuration/Find.antt =====
-- `GetResourcesWithFilter` and the `FindResourcesFor…` methods, which read the Configuration.
pub mod Found
use kubernetes_ingress.Prelude.{
  String, Bool, true, List, [], ◌∷◌, StrMap, insert, keys, get_sorted_keys, values_at,
  sorted_values, any, if◌then◌else◌,
}
use kubernetes_ingress.References.{ReferenceChecker}
use kubernetes_ingress.Resource.{Resource, full_ingress, full_virtual_server, get_key_with_kind}
use kubernetes_ingress.Configuration.{Configuration}

-- `resourceFilter`
pub record ResourceFilter : Type 0 where
  pub ingresses : Bool
  pub virtual_servers : Bool

unfoldable pub passes : ResourceFilter → Resource → Bool
passes filter (full_ingress fi) = filter.ingresses
passes filter (full_virtual_server fvs) = filter.virtual_servers

-- The loop over the resources of the hosts: those that pass, by their key.
unfoldable pub collect : ResourceFilter → List Resource → StrMap Resource
unfolding passes get_key_with_kind
collect filter [] = []
collect filter (r ∷ rs) =
    let rest = collect filter rs in
    if passes filter r then insert (get_key_with_kind r) r rest else rest

-- `GetResourcesWithFilter`
unfoldable pub get_resources_with_filter : ResourceFilter → Configuration → List Resource
unfolding collect get_sorted_keys values_at keys
get_resources_with_filter filter c =
    sorted_values (collect filter (values_at c.hosts (keys c.hosts)))

-- `GetResources`
unfoldable pub get_resources : Configuration → List Resource
unfolding get_resources_with_filter
get_resources c = get_resources_with_filter (record { ingresses = true; virtual_servers = true }) c

-- The resource or one of its minions or routes references the object.
unfoldable pub references : ReferenceChecker → String → String → Resource → Bool
references checker namespace name (full_ingress fi) =
    if checker.is_referenced_by_ingress namespace name fi.ingress
    then true
    else any (λ fm. checker.is_referenced_by_minion namespace name fm.ingress) fi.minions
references checker namespace name (full_virtual_server fvs) =
    if checker.is_referenced_by_virtual_server namespace name fvs.virtual_server
    then true
    else any (λ vsr. checker.is_referenced_by_virtual_server_route namespace name vsr)
        fvs.virtual_server_routes

unfoldable pub filter_resources : (Resource → Bool) → List Resource → List Resource
filter_resources p [] = []
filter_resources p (r ∷ rs) = let rest = filter_resources p rs in if p r then r ∷ rest else rest

-- `findResourcesForResourceReference`: once for each host of a resource, in the hosts' order.
unfoldable pub find_resources_for_resource_reference :
    String → String → ReferenceChecker → Configuration → List Resource
unfolding references filter_resources
find_resources_for_resource_reference namespace name checker c =
    filter_resources (references checker namespace name) (sorted_values c.hosts)

-- `FindResourcesForService`
unfoldable pub find_resources_for_service : String → String → Configuration → List Resource
unfolding find_resources_for_resource_reference
find_resources_for_service svc_namespace svc_name c =
    find_resources_for_resource_reference svc_namespace svc_name c.service_reference_checker c

-- `FindResourcesForEndpoints`: endpoints have the namespace and the name of their service.
unfoldable pub find_resources_for_endpoints : String → String → Configuration → List Resource
unfolding find_resources_for_service
find_resources_for_endpoints endpoints_namespace endpoints_name c =
    find_resources_for_service endpoints_namespace endpoints_name c

-- `FindResourcesForSecret`
unfoldable pub find_resources_for_secret : String → String → Configuration → List Resource
unfolding find_resources_for_resource_reference
find_resources_for_secret secret_namespace secret_name c =
    find_resources_for_resource_reference secret_namespace secret_name c.secret_reference_checker c

-- `FindResourcesForPolicy`
unfoldable pub find_resources_for_policy : String → String → Configuration → List Resource
unfolding find_resources_for_resource_reference
find_resources_for_policy policy_namespace policy_name c =
    find_resources_for_resource_reference policy_namespace policy_name c.policy_reference_checker c

-- `FindResourcesForAppProtectPolicy`
unfoldable pub find_resources_for_app_protect_policy :
    String → String → Configuration → List Resource
unfolding find_resources_for_resource_reference
find_resources_for_app_protect_policy policy_namespace policy_name c =
    find_resources_for_resource_reference policy_namespace policy_name
      c.app_policy_reference_checker c

-- `FindResourcesForAppProtectLogConf`
unfoldable pub find_resources_for_app_protect_log_conf :
    String → String → Configuration → List Resource
unfolding find_resources_for_resource_reference
find_resources_for_app_protect_log_conf log_conf_namespace log_conf_name c =
    find_resources_for_resource_reference log_conf_namespace log_conf_name
      c.app_log_conf_reference_checker c

-- ===== src/References.antt =====
-- internal/k8s/reference_checkers.go: which objects reference a secret, a service, a policy or an
-- App Protect resource. The interface `resourceReferenceChecker` is a record of its four methods.
pub mod Policies
use kubernetes_ingress.Prelude.{
  String, ◌++◌, ◌==◌, Bool, true, false, not, ◌&&◌, ◌||◌, Option, none, some, List, any,
  if◌then◌else◌,
}
use kubernetes_ingress.Api.{
  ObjectMeta, PolicyReference, IngressRule, Ingress, VirtualServer, VirtualServerRoute, annotation,
}

-- `resourceReferenceChecker`
pub record ReferenceChecker : Type 0 where
  pub is_referenced_by_ingress : String → String → Ingress → Bool
  pub is_referenced_by_minion : String → String → Ingress → Bool
  pub is_referenced_by_virtual_server : String → String → VirtualServer → Bool
  pub is_referenced_by_virtual_server_route : String → String → VirtualServerRoute → Bool

-- `configs.JWTKeyAnnotation`, `AppProtectPolicyAnnotation` and `AppProtectLogConfAnnotation`
abbrev pub jwt_key_annotation : String
jwt_key_annotation = "nginx.com/jwt-key"

abbrev pub app_protect_policy_annotation : String
app_protect_policy_annotation = "appprotect.f5.com/app-protect-policy"

abbrev pub app_protect_log_conf_annotation : String
app_protect_log_conf_annotation = "appprotect.f5.com/app-protect-security-log"

-- `if value, exists := annotations[key]; exists { if value == name { return true } }`
annotation_is : ObjectMeta → String → String → Bool
unfolding annotation
annotation_is meta key name = elim (annotation meta key) [ none ↦ false | some v ↦ v == name ]

is_some_of : Option String → String → Bool
is_some_of none name = false
is_some_of (some s) name = s == name

unfoldable pub secret_is_referenced_by_ingress : Bool → String → String → Ingress → Bool
unfolding annotation_is
secret_is_referenced_by_ingress is_plus secret_namespace secret_name ing =
    if not (ing.meta.namespace == secret_namespace)
    then false
    else if any (λ t. t == secret_name) ing.tls
    then true
    else is_plus && annotation_is ing.meta jwt_key_annotation secret_name

unfoldable pub secret_is_referenced_by_minion : Bool → String → String → Ingress → Bool
unfolding annotation_is
secret_is_referenced_by_minion is_plus secret_namespace secret_name ing =
    if not (ing.meta.namespace == secret_namespace)
    then false
    else is_plus && annotation_is ing.meta jwt_key_annotation secret_name

unfoldable pub secret_is_referenced_by_virtual_server : String → String → VirtualServer → Bool
unfolding is_some_of
secret_is_referenced_by_virtual_server secret_namespace secret_name vs =
    if not (vs.meta.namespace == secret_namespace)
    then false
    else elim vs.tls [ none ↦ false | some tls ↦ tls.secret == secret_name ]

-- `newSecretReferenceChecker`
unfoldable pub new_secret_reference_checker : Bool → ReferenceChecker
unfolding secret_is_referenced_by_ingress secret_is_referenced_by_minion
    secret_is_referenced_by_virtual_server
new_secret_reference_checker is_plus = record {
  is_referenced_by_ingress = secret_is_referenced_by_ingress is_plus;
  is_referenced_by_minion = secret_is_referenced_by_minion is_plus;
  is_referenced_by_virtual_server = secret_is_referenced_by_virtual_server;
  is_referenced_by_virtual_server_route = λ namespace name vsr. false;
}

rule_references : String → IngressRule → Bool
rule_references svc_name rule = elim rule.http [
  | none ↦ false
  | some paths ↦ any (λ p. p.service_name == svc_name) paths
]

unfoldable pub service_is_referenced_by_ingress : String → String → Ingress → Bool
unfolding rule_references is_some_of
service_is_referenced_by_ingress svc_namespace svc_name ing =
    if not (ing.meta.namespace == svc_namespace)
    then false
    else if is_some_of ing.backend svc_name
    then true
    else any (rule_references svc_name) ing.rules

unfoldable pub service_is_referenced_by_virtual_server : String → String → VirtualServer → Bool
service_is_referenced_by_virtual_server svc_namespace svc_name vs =
    if not (vs.meta.namespace == svc_namespace)
    then false
    else any (λ u. u.service == svc_name) vs.upstreams

unfoldable pub service_is_referenced_by_virtual_server_route :
    String → String → VirtualServerRoute → Bool
service_is_referenced_by_virtual_server_route svc_namespace svc_name vsr =
    if not (vsr.meta.namespace == svc_namespace)
    then false
    else any (λ u. u.service == svc_name) vsr.upstreams

-- `newServiceReferenceChecker`; a minion references what an Ingress does.
unfoldable pub new_service_reference_checker : ReferenceChecker
unfolding service_is_referenced_by_ingress service_is_referenced_by_virtual_server
    service_is_referenced_by_virtual_server_route
new_service_reference_checker = record {
  is_referenced_by_ingress = service_is_referenced_by_ingress;
  is_referenced_by_minion = service_is_referenced_by_ingress;
  is_referenced_by_virtual_server = service_is_referenced_by_virtual_server;
  is_referenced_by_virtual_server_route = service_is_referenced_by_virtual_server_route;
}

-- A reference without a namespace is to the namespace of the object that makes it.
unfoldable pub policy_reference_is : String → String → String → PolicyReference → Bool
policy_reference_is resource_namespace policy_namespace policy_name p =
    let namespace = if p.namespace == "" then resource_namespace else p.namespace in
    p.name == policy_name && namespace == policy_namespace

-- `isPolicyReferenced`
unfoldable pub is_policy_referenced : List PolicyReference → String → String → String → Bool
unfolding policy_reference_is
is_policy_referenced policies resource_namespace policy_namespace policy_name =
    any (policy_reference_is resource_namespace policy_namespace policy_name) policies

unfoldable pub policy_is_referenced_by_virtual_server : String → String → VirtualServer → Bool
policy_is_referenced_by_virtual_server policy_namespace policy_name vs =
    if is_policy_referenced vs.policies vs.meta.namespace policy_namespace policy_name
    then true
    else any (λ r. is_policy_referenced r.policies vs.meta.namespace policy_namespace policy_name)
        vs.routes

unfoldable pub policy_is_referenced_by_virtual_server_route :
    String → String → VirtualServerRoute → Bool
policy_is_referenced_by_virtual_server_route policy_namespace policy_name vsr =
    any (λ r. is_policy_referenced r.policies vsr.meta.namespace policy_namespace policy_name)
      vsr.subroutes

-- `newPolicyReferenceChecker`
unfoldable pub new_policy_reference_checker : ReferenceChecker
unfolding policy_is_referenced_by_virtual_server policy_is_referenced_by_virtual_server_route
new_policy_reference_checker = record {
  is_referenced_by_ingress = λ namespace name ing. false;
  is_referenced_by_minion = λ namespace name ing. false;
  is_referenced_by_virtual_server = policy_is_referenced_by_virtual_server;
  is_referenced_by_virtual_server_route = policy_is_referenced_by_virtual_server_route;
}

unfoldable pub app_protect_is_referenced_by_ingress : String → String → String → Ingress → Bool
unfolding annotation
app_protect_is_referenced_by_ingress key namespace name ing = elim (annotation ing.meta key) [
  | none ↦ false
  | some pol ↦ pol == namespace ++ "/" ++ name || (namespace == ing.meta.namespace && pol == name)
]

-- `newAppProtectResourceReferenceChecker`: only a regular or master Ingress has such references.
unfoldable pub new_app_protect_resource_reference_checker : String → ReferenceChecker
unfolding app_protect_is_referenced_by_ingress
new_app_protect_resource_reference_checker key = record {
  is_referenced_by_ingress = app_protect_is_referenced_by_ingress key;
  is_referenced_by_minion = λ namespace name ing. false;
  is_referenced_by_virtual_server = λ namespace name vs. false;
  is_referenced_by_virtual_server_route = λ namespace name vsr. false;
}

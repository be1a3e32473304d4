-- ===== src/Configuration.antt =====
-- internal/k8s/configuration.go: the state of the Configuration, the changes and problems that it
-- reports, and the code outside this model that it calls.
pub mod Minions
pub mod Hosts
pub mod Changes
pub mod Problems
pub mod Operations
pub mod Find
pub mod Deployment
use kubernetes_ingress.Prelude.{String, Bool, true, false, Option, List, StrMap, ◌==◌, ◌&&◌, []}
use kubernetes_ingress.Api.{Object, Ingress, VirtualServer, VirtualServerRoute}
use kubernetes_ingress.Resource.{Resource, same_bool}
use kubernetes_ingress.References.{
  ReferenceChecker, app_protect_policy_annotation, app_protect_log_conf_annotation,
  new_secret_reference_checker, new_service_reference_checker, new_policy_reference_checker,
  new_app_protect_resource_reference_checker,
}

-- `Operation`
pub data Operation : Type 0 where
  delete add_or_update : Operation

-- `ResourceChange`; an error of "" is no error.
pub record ResourceChange : Type 0 where
  pub op : Operation
  pub resource : Resource
  pub error : String

-- `ConfigurationProblem`
pub record ConfigurationProblem : Type 0 where
  pub object : Object
  pub is_error : Bool
  pub reason : String
  pub message : String

-- `compareConfigurationProblems`
unfoldable pub compare_configuration_problems : ConfigurationProblem → ConfigurationProblem → Bool
unfolding same_bool
compare_configuration_problems problem1 problem2 =
    same_bool problem1.is_error problem2.is_error
    && (problem1.reason == problem2.reason && problem1.message == problem2.message)

-- `VirtualServerValidator`: an error is its text, `none` is nil.
pub record VirtualServerValidator : Type 0 where
  pub validate_virtual_server : VirtualServer → Option String
  pub validate_virtual_server_route : VirtualServerRoute → Option String
  pub validate_virtual_server_route_for_virtual_server :
      VirtualServerRoute → String → String → Option String

-- `Configuration`, without its lock: the methods that change it run one at a time.
pub record Configuration : Type 0 where
  pub hosts : StrMap Resource
  pub ingresses : StrMap Ingress
  pub virtual_servers : StrMap VirtualServer
  pub virtual_server_routes : StrMap VirtualServerRoute
  pub problems : StrMap ConfigurationProblem
  pub has_correct_ingress_class : Object → Bool
  pub virtual_server_validator : VirtualServerValidator
  pub secret_reference_checker : ReferenceChecker
  pub service_reference_checker : ReferenceChecker
  pub policy_reference_checker : ReferenceChecker
  pub app_policy_reference_checker : ReferenceChecker
  pub app_log_conf_reference_checker : ReferenceChecker
  pub is_plus : Bool

-- `NewConfiguration`
unfoldable pub new_configuration : (Object → Bool) → Bool → VirtualServerValidator → Configuration
unfolding new_secret_reference_checker new_service_reference_checker new_policy_reference_checker
    new_app_protect_resource_reference_checker
new_configuration has_correct_ingress_class is_plus validator = record {
  hosts = [];
  ingresses = [];
  virtual_servers = [];
  virtual_server_routes = [];
  problems = [];
  has_correct_ingress_class = has_correct_ingress_class;
  virtual_server_validator = validator;
  secret_reference_checker = new_secret_reference_checker is_plus;
  service_reference_checker = new_service_reference_checker;
  policy_reference_checker = new_policy_reference_checker;
  app_policy_reference_checker =
      new_app_protect_resource_reference_checker app_protect_policy_annotation;
  app_log_conf_reference_checker =
      new_app_protect_resource_reference_checker app_protect_log_conf_annotation;
  is_plus = is_plus;
}

-- ===== src/Lib.antt =====
-- The NGINX Ingress Controller keeps the Ingresses, VirtualServers and VirtualServerRoutes of a
-- cluster in a `Configuration` (internal/k8s/configuration.go). The controller hands it every
-- object that appears, changes or goes; the Configuration validates it, decides which object gets
-- which host and path, and returns the changes to make to the NGINX config and the problems to
-- report. Beside it stands the store of the secrets that the resources refer to, which keeps the
-- files of the valid ones.
--
-- Api is the objects' fields that this core reads (pkg/apis/configuration/v1/types.go, in Api/Alpha
-- pkg/apis/configuration/v1alpha1/types.go, and the Kubernetes types). Resource is the interface
-- `Resource` with `FullIngress` and `FullVirtualServer`. References is
-- internal/k8s/reference_checkers.go. Parsing is internal/configs/parsing_helpers.go without
-- VerifyAppProtectThresholds. Validation is internal/k8s/validation.go. Configuration is the rest
-- of configuration.go, a module for each part:
--   Minions     `buildFullMinions`
--   Hosts       `buildHostsAndResources`, `buildVirtualServerRoutes`
--   Changes     `detectChangesInHosts`, `createResourceChanges`, `squashResourceChanges`
--   Problems    the `addProblemsFor…` methods, `detectChangesInProblems`
--   Operations  `rebuild`, the `AddOrUpdate…` and `Delete…` methods
--   Find        `GetResources`, the `FindResourcesFor…` methods
-- CustomResources is pkg/apis/configuration/validation:
--   Common, Patterns  common.go and the regular expressions, as matchers of whole texts
--   Fields      hosts, policies, TLS, names and paths
--   Upstreams   `validateUpstreams` and the parameters of an upstream
--   Actions     `validateAction`, redirects, returns and proxies
--   Routes      `validateRoute`, splits, matches and error pages
--   Servers     `ValidateVirtualServer`, `ValidateVirtualServerRouteForVirtualServer`
--   Listeners   `ValidateGlobalConfiguration` and the listeners of TransportServers
--   TransportServers  `ValidateTransportServer`
--   Policies    `ValidatePolicy`
-- Secrets is internal/k8s/secrets: the validation of secrets, Store the `LocalSecretStore`, and
-- Files its `SecretFileManager`, which is the Configurator (internal/configs/configurator.go) over
-- the secret files of internal/nginx/manager.go.
-- A function has the name of the Go function in snake case. Prelude has what the modules share, and
-- Tests has concrete objects.
--
-- A Go map is an association list in which the first entry of a key counts; the code ranges over
-- maps by sorted keys, or where the order does not matter. A Go `string` is a `String`, an `int` an
-- integer whose sums wrap at 64 bits. Resources are mutated through pointers while hosts are given
-- out, so they stand in a heap, and the maps of that loop hold addresses (`HostBuild`); the hosts
-- of a Configuration hold the objects, since nothing mutates them later. Minions are treated
-- likewise while a master's paths are given out. A stored secret is mutated only by the store,
-- which puts the new one back. A panic (an index out of range, a nil pointer) is `none`, and a
-- method of the Configuration returns an `Outcome`, its new state and what it reports. The mutex is
-- left out: methods run one at a time. All loops are recursion on a list or a text, and there is no
-- fuel. A loop over the fields of an object that appends the errors of each is the concatenation of
-- their lists.
--
-- Parameters are the class filter, the validator that a Configuration holds, the text of an
-- aggregated error list (k8s.io/apimachinery), the checks of `util/validation`, the compiler of
-- regular expressions and the address parsers of `net` (`Checks`), and the parsers of certificates
-- and keys (`Crypto`). Files are a map from paths; a write or a removal that the operating system
-- refuses is not modelled. Not modelled are the controller's informers and queue, status updates,
-- App Protect resources, the generation of NGINX configs from the resources, and the NGINX
-- processes.
pub mod Prelude
pub mod Api
pub mod Resource
pub mod References
pub mod Parsing
pub mod Validation
pub mod Configuration
pub mod Secrets
pub mod CustomResources
pub mod Tests

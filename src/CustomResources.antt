-- ===== src/CustomResources.antt =====
-- pkg/apis/configuration/validation: the validation of VirtualServers and VirtualServerRoutes.
pub mod Checks
pub mod Passed
pub mod Patterns
pub mod Common
pub mod Fields
pub mod Upstreams
pub mod Actions
pub mod Routes
pub mod Servers
pub mod Listeners
pub mod TransportServers
pub mod Policies

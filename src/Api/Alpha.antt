-- ===== src/Api/Alpha.antt =====
-- pkg/apis/configuration/v1alpha1/types.go: the specs of GlobalConfigurations, TransportServers and
-- Policies. A slice that may be nil is an Option.
use kubernetes_ingress.Prelude.{ℤ, String, Bool, Option, List}

pub record Listener : Type 0 where
  pub name : String
  pub port : ℤ
  pub protocol : String

pub record TransportServerListener : Type 0 where
  pub name : String
  pub protocol : String

pub record TransportServerUpstream : Type 0 where
  pub name : String
  pub service : String
  pub port : ℤ

pub record UpstreamParameters : Type 0 where
  pub udp_requests : Option ℤ
  pub udp_responses : Option ℤ

pub record TransportServerAction : Type 0 where
  pub pass : String

pub record TransportServerSpec : Type 0 where
  pub listener : TransportServerListener
  pub host : String
  pub upstreams : List TransportServerUpstream
  pub upstream_parameters : Option UpstreamParameters
  pub action : Option TransportServerAction

pub record AccessControl : Type 0 where
  pub allow : Option (List String)
  pub deny : Option (List String)

pub record RateLimit : Type 0 where
  pub rate : String
  pub key : String
  pub delay : Option ℤ
  pub no_delay : Option Bool
  pub burst : Option ℤ
  pub zone_size : String
  pub dry_run : Option Bool
  pub log_level : String
  pub reject_code : Option ℤ

pub record JwtAuth : Type 0 where
  pub realm : String
  pub secret : String
  pub token : String

pub record IngressMtls : Type 0 where
  pub client_cert_secret : String
  pub verify_client : String
  pub verify_depth : Option ℤ

pub record EgressMtls : Type 0 where
  pub tls_secret : String
  pub verify_server : Bool
  pub verify_depth : Option ℤ
  pub protocols : String
  pub session_reuse : Option Bool
  pub ciphers : String
  pub trusted_cert_secret : String
  pub server_name : Bool
  pub ssl_name : String

pub record PolicySpec : Type 0 where
  pub access_control : Option AccessControl
  pub rate_limit : Option RateLimit
  pub jwt_auth : Option JwtAuth
  pub ingress_mtls : Option IngressMtls
  pub egress_mtls : Option EgressMtls

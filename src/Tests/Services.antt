-- ===== src/Tests/Services.antt =====
-- A GlobalConfiguration, a TransportServer and a Policy, through the validation, and a value of a map.
use kubernetes_ingress.Prelude.{
  inl, inr, ℤ, pos, leq, String, StrMap, lookup, ◌≡◌, refl, Bool, false, ◌&&◌, none, some, List, [],
  ◌∷◌, map, Distinct,
}
use kubernetes_ingress.Api.Alpha.{Listener, TransportServerSpec, PolicySpec}
use kubernetes_ingress.CustomResources.Listeners.{
  generate_port_protocol_key, validate_global_configuration,
}
use kubernetes_ingress.CustomResources.Listeners.Allowed.{
  IsAllowed, validate_global_configuration-IsAllowed,
}
use kubernetes_ingress.CustomResources.Listeners.Unique.{validate_global_configuration-unique}
use kubernetes_ingress.CustomResources.TransportServers.{validate_transport_server}
use kubernetes_ingress.CustomResources.TransportServers.Served.{
  IsServed, validate_transport_server-IsServed,
}
use kubernetes_ingress.CustomResources.Policies.{validate_policy_resource}
use kubernetes_ingress.CustomResources.Policies.Chosen.{IsOne, validate_policy_resource-IsOne}
use kubernetes_ingress.Parsing.MapKeys.{get_map_key_as_string_slice}
use kubernetes_ingress.Tests.Cafes.{ranges}

-- Port 80 is taken.
abbrev is_80 : ℤ → Bool
is_80 n = leq (pos 80) n && leq n (pos 80)

-- Two listeners of one port, which differ by protocol.
abbrev dns : List Listener
dns =
    record { name = "dns-udp"; port = pos 5353; protocol = "UDP" }
    ∷ record { name = "dns-tcp"; port = pos 5353; protocol = "TCP" }
    ∷ []

dns-valid : validate_global_configuration ranges is_80 dns ≡ []
unfolding validate_global_configuration
dns-valid = refl

validate_global_configuration-unique_example :
    Distinct (map (λ l. l.name) dns) × Distinct (map generate_port_protocol_key dns)
validate_global_configuration-unique_example =
    validate_global_configuration-unique ranges is_80 dns dns-valid

validate_global_configuration-IsAllowed_example :
    IsAllowed ranges is_80 (record { name = "dns-tcp"; port = pos 5353; protocol = "TCP" })
validate_global_configuration-IsAllowed_example =
    validate_global_configuration-IsAllowed ranges is_80 dns
      (record { name = "dns-tcp"; port = pos 5353; protocol = "TCP" }) dns-valid (inr (inl refl))

abbrev dns_server : TransportServerSpec
dns_server = record {
  listener = record { name = "dns-udp"; protocol = "UDP" };
  host = "";
  upstreams =
      record { name = "dns"; service = "coredns"; port = pos 5353 }
      ∷ record { name = "spare"; service = "spare-dns"; port = pos 5353 }
      ∷ [];
  upstream_parameters = some (record { udp_requests = some (pos 1); udp_responses = some (pos 1) });
  action = some (record { pass = "dns" });
}

dns_server-valid : validate_transport_server ranges false dns_server ≡ []
unfolding validate_transport_server
dns_server-valid = refl

validate_transport_server-IsServed_example : IsServed false dns_server
validate_transport_server-IsServed_example =
    validate_transport_server-IsServed ranges false dns_server dns_server-valid

abbrev limited : PolicySpec
limited = record {
  access_control = none;
  rate_limit = some (record {
    rate = "10r/s";
    key = "${binary_remote_addr}";
    delay = none;
    no_delay = none;
    burst = some (pos 5);
    zone_size = "10M";
    dry_run = none;
    log_level = "warn";
    reject_code = some (pos 429);
  });
  jwt_auth = none;
  ingress_mtls = none;
  egress_mtls = none;
}

limited-valid : validate_policy_resource ranges false limited ≡ []
unfolding validate_policy_resource
limited-valid = refl

validate_policy_resource-IsOne_example :
    IsOne limited.access_control limited.rate_limit limited.jwt_auth limited.ingress_mtls
      limited.egress_mtls
    × (false ≡ false → limited.jwt_auth ≡ none)
validate_policy_resource-IsOne_example =
    validate_policy_resource-IsOne ranges false limited limited-valid

abbrev snippets : StrMap String
snippets = ("server-snippets", "a::b::::c") ∷ []

snippets-split :
    (get_map_key_as_string_slice snippets "server-snippets" "::").0 ≡ "a" ∷ "b" ∷ "" ∷ "c" ∷ []
unfolding get_map_key_as_string_slice lookup
snippets-split = refl

-- ===== src/CustomResources/TransportServers.antt =====
-- pkg/apis/configuration/validation/transportserver.go.
pub mod Served
use mathlib.Core.List.{◌++◌}
use kubernetes_ingress.Prelude.{
  ℕ, suc, ℤ, String, ◌==◌, Bool, true, false, not, ◌&&◌, ◌||◌, Option, none, some, List, [], ◌∷◌,
  if◌then◌else◌,
}
use kubernetes_ingress.Api.Alpha.{
  TransportServerListener, TransportServerUpstream, UpstreamParameters, TransportServerAction,
  TransportServerSpec,
}
use kubernetes_ingress.Validation.Errors.{
  FieldPath, new_path, child, index, text, required, forbidden, invalid, ErrorList,
}
use kubernetes_ingress.CustomResources.Checks.{Checks, invalid_int_all}
use kubernetes_ingress.CustomResources.Fields.{
  validate_host, validate_service_name, validate_positive_int_or_zero_from_pointer,
}
use kubernetes_ingress.CustomResources.Upstreams.{add_upstream_name}
use kubernetes_ingress.CustomResources.Actions.{validate_referenced_upstream}
use kubernetes_ingress.CustomResources.Listeners.{
  tls_passthrough_listener_name, validate_listener_name, validate_listener_protocol,
}

-- `v1alpha1.TLSPassthroughListenerProtocol`
abbrev pub tls_passthrough_listener_protocol : String
tls_passthrough_listener_protocol = "TLS_PASSTHROUGH"

-- `isPotentialTLSPassthroughListener`
unfoldable pub is_potential_tls_passthrough_listener : TransportServerListener → Bool
is_potential_tls_passthrough_listener listener =
    listener.name == tls_passthrough_listener_name
    || listener.protocol == tls_passthrough_listener_protocol

-- `validateUDPUpstreamParameter`
unfoldable pub validate_udp_upstream_parameter : Option ℤ → FieldPath → String → ErrorList
unfolding validate_positive_int_or_zero_from_pointer
validate_udp_upstream_parameter none path protocol =
    validate_positive_int_or_zero_from_pointer none path
validate_udp_upstream_parameter (some n) path protocol =
    if not (protocol == "UDP")
    then forbidden path (text "is not allowed for non-UDP TransportServers") ∷ []
    else validate_positive_int_or_zero_from_pointer (some n) path

-- `validateTransportServerUpstreamParameters`
unfoldable pub validate_transport_server_upstream_parameters :
    Option UpstreamParameters → FieldPath → String → ErrorList
unfolding validate_udp_upstream_parameter
validate_transport_server_upstream_parameters none path protocol = []
validate_transport_server_upstream_parameters (some parameters) path protocol =
    validate_udp_upstream_parameter parameters.udp_requests (child path "udpRequests") protocol
    ++ validate_udp_upstream_parameter parameters.udp_responses (child path "udpResponses") protocol

module _ (checks : Checks) (tls_passthrough : Bool) where
  -- `validateTransportServerHost`
  unfoldable pub validate_transport_server_host : String → FieldPath → Bool → ErrorList
  unfolding validate_host
  validate_transport_server_host host path true = validate_host checks host path
  validate_transport_server_host host path false =
      if host == ""
      then []
      else forbidden path (text "host field is allowed only for TLS Passthrough TransportServers")
        ∷ []

  -- `validateRegularListener`
  unfoldable pub validate_regular_listener : TransportServerListener → FieldPath → ErrorList
  unfolding validate_listener_name validate_listener_protocol
  validate_regular_listener listener path =
      validate_listener_name checks listener.name (child path "name")
      ++ validate_listener_protocol listener.protocol (child path "protocol")

  -- `validateTLSPassthroughListener`
  unfoldable pub validate_tls_passthrough_listener : TransportServerListener → FieldPath → ErrorList
  validate_tls_passthrough_listener listener path =
      let named = listener.name == tls_passthrough_listener_name in
      let spoken = listener.protocol == tls_passthrough_listener_protocol in
      if not tls_passthrough
      then forbidden path (text "TLS Passthrough is not enabled") ∷ []
      else if named && not spoken
      then invalid (child path "protocol") listener.protocol
          (text "must be 'TLS_PASSTHROUGH' for the built-in tls-passthrough listener")
        ∷ []
      else if spoken && not named
      then invalid (child path "name") listener.name
          (text "must be 'tls-passthrough' for a listener with the protocol TLS_PASSTHROUGH")
        ∷ []
      else []

  -- `validateTransportListener`
  unfoldable pub validate_transport_listener : TransportServerListener → FieldPath → ErrorList
  unfolding is_potential_tls_passthrough_listener validate_tls_passthrough_listener
      validate_regular_listener
  validate_transport_listener listener path =
      if is_potential_tls_passthrough_listener listener
      then validate_tls_passthrough_listener listener path
      else validate_regular_listener listener path

  -- The loop of `validateTransportServerUpstreams` from index `i`, with the names seen.
  unfoldable pub validate_transport_upstreams_from :
      ℕ → List String → List TransportServerUpstream → FieldPath → ErrorList × List String
  unfolding add_upstream_name validate_service_name invalid_int_all
  validate_transport_upstreams_from i names [] path = ([], names)
  validate_transport_upstreams_from i names (u ∷ us) path =
      let named = add_upstream_name checks u.name (child (index path i) "name") names in
      let rest = validate_transport_upstreams_from (suc i) named.1 us path in
      (
        named.0
            ++ (validate_service_name checks u.service (child (index path i) "service")
                ++ (invalid_int_all (child (index path i) "port") u.port
                      (checks.is_valid_port_num u.port)
                    ++ rest.0)),
        rest.1,
      )

  -- `validateTransportServerUpstreams`
  unfoldable pub validate_transport_server_upstreams :
      List TransportServerUpstream → FieldPath → ErrorList × List String
  unfolding validate_transport_upstreams_from
  validate_transport_server_upstreams upstreams path =
      validate_transport_upstreams_from 0 [] upstreams path

  -- `validateTransportServerAction`, and the error of a missing action.
  unfoldable pub validate_transport_server_action :
      Option TransportServerAction → FieldPath → List String → ErrorList
  unfolding validate_referenced_upstream
  validate_transport_server_action none path upstream_names =
      required path "must specify action" ∷ []
  validate_transport_server_action (some action) path upstream_names =
      if action.pass == ""
      then required path "must specify pass" ∷ []
      else validate_referenced_upstream checks action.pass (child path "pass") upstream_names

  -- `validateTransportServerSpec`
  unfoldable pub validate_transport_server_spec : TransportServerSpec → FieldPath → ErrorList
  unfolding validate_transport_listener validate_transport_server_host
      validate_transport_server_upstreams validate_transport_server_upstream_parameters
      validate_transport_server_action is_potential_tls_passthrough_listener
  validate_transport_server_spec spec path =
      let upstreams = validate_transport_server_upstreams spec.upstreams (child path "upstreams") in
      validate_transport_listener spec.listener (child path "listener")
      ++ (validate_transport_server_host spec.host (child path "host")
            (is_potential_tls_passthrough_listener spec.listener)
          ++ (upstreams.0
              ++ (validate_transport_server_upstream_parameters spec.upstream_parameters
                    (child path "upstreamParameters") spec.listener.protocol
                  ++ validate_transport_server_action spec.action (child path "action")
                      upstreams.1)))

  -- `ValidateTransportServer` before the errors are joined.
  unfoldable pub validate_transport_server : TransportServerSpec → ErrorList
  unfolding validate_transport_server_spec
  validate_transport_server spec = validate_transport_server_spec spec (new_path "spec")

-- ===== src/CustomResources/Listeners.antt =====
-- pkg/apis/configuration/validation/globalconfiguration.go, and the listeners of transportserver.go.
pub mod Allowed
pub mod Unique
use mathlib.Core.List.{◌++◌}
use kubernetes_ingress.Prelude.{
  ℕ, suc, ℤ, leq, String, ◌==◌, Bool, true, false, ◌&&◌, List, [], ◌∷◌, any, length, ltb,
  if◌then◌else◌,
}
use kubernetes_ingress.Api.Alpha.{Listener}
use kubernetes_ingress.Parsing.Strings.{contains}
use kubernetes_ingress.Validation.Errors.{
  FieldPath, new_path, child, index, text, accepted_are, port_is_forbidden, required, duplicate,
  forbidden, invalid, ErrorList,
}
use kubernetes_ingress.CustomResources.Checks.{Checks, invalid_int_all}
use kubernetes_ingress.CustomResources.Fields.{validate_dns1035_label}

-- `v1alpha1.TLSPassthroughListenerName`
abbrev pub tls_passthrough_listener_name : String
tls_passthrough_listener_name = "tls-passthrough"

-- `listenerProtocols`
abbrev pub listener_protocols : List String
listener_protocols = "TCP" ∷ "UDP" ∷ []

-- `validateListenerName`
unfoldable pub validate_listener_name : Checks → String → FieldPath → ErrorList
unfolding validate_dns1035_label
validate_listener_name checks name path = validate_dns1035_label checks name path

-- `validateListenerProtocol`; the message for a missing protocol lists the accepted ones in
-- the order of the map's iteration, here by name.
unfoldable pub validate_listener_protocol : String → FieldPath → ErrorList
unfolding contains
validate_listener_protocol protocol path =
    if protocol == ""
    then required path "must specify protocol. Accepted values: TCP, UDP" ∷ []
    else if contains listener_protocols protocol
    then []
    else invalid path protocol (accepted_are protocol listener_protocols) ∷ []

-- `generatePortProtocolKey`, which prints the two apart by "/": the texts are equal where both agree.
abbrev pub PortProtocolKey : Type 0
PortProtocolKey = ℤ × String

abbrev pub generate_port_protocol_key : Listener → PortProtocolKey
generate_port_protocol_key l = (l.port, l.protocol)

unfoldable pub same_port : ℤ → ℤ → Bool
unfolding leq
same_port p q = leq p q && leq q p

unfoldable pub has_key : List PortProtocolKey → PortProtocolKey → Bool
unfolding same_port
has_key keys key = any (λ k. same_port k.0 key.0 && k.1 == key.1) keys

-- What the loop of `validateListeners` has seen.
pub record Seen : Type 0 where
  pub listener_names : List String
  pub port_protocol_combinations : List PortProtocolKey

-- The errors of a listener, or of its name or key if they are repeated, and what is seen with it. The
-- message of a repeated key leaves the key out.
unfoldable pub add_listener : ErrorList → Listener → FieldPath → ℕ → Seen → ErrorList × Seen
unfolding contains has_key
add_listener listener_errs l path i seen =
    if ltb 0 (length listener_errs)
    then (listener_errs, seen)
    else if contains seen.listener_names l.name
    then (duplicate (child (index path i) "name") l.name ∷ [], seen)
    else if has_key seen.port_protocol_combinations (generate_port_protocol_key l)
    then (duplicate path "Duplicated port/protocol combination" ∷ [], seen)
    else (
      [],
      record {
        listener_names = l.name ∷ seen.listener_names;
        port_protocol_combinations = generate_port_protocol_key l ∷ seen.port_protocol_combinations;
      },
    )

module _ (checks : Checks) (forbidden_listener_ports : ℤ → Bool) where
  -- `validateGlobalConfigurationListenerName`
  unfoldable pub validate_global_configuration_listener_name : String → FieldPath → ErrorList
  unfolding validate_listener_name
  validate_global_configuration_listener_name name path =
      if name == tls_passthrough_listener_name
      then forbidden path (text "is the name of a built-in listener") ∷ []
      else validate_listener_name checks name path

  -- `validateListenerPort`
  unfoldable pub validate_listener_port : ℤ → FieldPath → ErrorList
  unfolding invalid_int_all
  validate_listener_port port path =
      if forbidden_listener_ports port
      then forbidden path (port_is_forbidden port) ∷ []
      else invalid_int_all path port (checks.is_valid_port_num port)

  -- `validateListener`
  unfoldable pub validate_listener : Listener → FieldPath → ErrorList
  unfolding validate_global_configuration_listener_name validate_listener_port
      validate_listener_protocol
  validate_listener listener path =
      validate_global_configuration_listener_name listener.name (child path "name")
      ++ (validate_listener_port listener.port (child path "port")
          ++ validate_listener_protocol listener.protocol (child path "protocol"))

  unfoldable pub validate_listeners_from : ℕ → Seen → List Listener → FieldPath → ErrorList
  unfolding validate_listener add_listener
  validate_listeners_from i seen [] path = []
  validate_listeners_from i seen (l ∷ ls) path =
      let added = add_listener (validate_listener l (index path i)) l path i seen in
      let rest = validate_listeners_from (suc i) added.1 ls path in added.0 ++ rest

  -- `validateListeners`
  unfoldable pub validate_listeners : List Listener → FieldPath → ErrorList
  unfolding validate_listeners_from
  validate_listeners listeners path =
      validate_listeners_from 0 (record { listener_names = []; port_protocol_combinations = [] })
        listeners path

  -- `validateGlobalConfigurationSpec`, and `ValidateGlobalConfiguration` before the errors are joined.
  unfoldable pub validate_global_configuration : List Listener → ErrorList
  unfolding validate_listeners
  validate_global_configuration listeners =
      validate_listeners listeners (child (new_path "spec") "listeners")

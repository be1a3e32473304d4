-- ===== src/CustomResources/TransportServers/Served.antt =====
-- The upstreams, the action and the host of a TransportServer without errors.
use kubernetes_ingress.Prelude.{
  ℕ, suc, String, ◌≡◌, ◌⊎◌, subst, inl, inr, ◌==◌, eq_iff, Bool, true, false, not, ◌&&◌, Option,
  none, some, List, [], ◌∷◌, map, In, Distinct, append-[], arith, Bool-cases,
}
use kubernetes_ingress.Api.Alpha.{
  TransportServerListener, TransportServerUpstream, TransportServerAction, TransportServerSpec,
}
use kubernetes_ingress.Validation.Errors.{FieldPath, new_path, child, index}
use kubernetes_ingress.CustomResources.Checks.{Checks, invalid_int_all}
use kubernetes_ingress.CustomResources.Passed.{if-required, if-forbidden}
use kubernetes_ingress.CustomResources.Fields.{validate_service_name}
use kubernetes_ingress.CustomResources.Upstreams.{add_upstream_name}
use kubernetes_ingress.CustomResources.Upstreams.Names.{
  AddsNames, AddsNames-∷, add_upstream_name-new,
}
use kubernetes_ingress.CustomResources.Actions.Referenced.{validate_referenced_upstream-In}
use kubernetes_ingress.CustomResources.Listeners.{
  tls_passthrough_listener_name, listener_protocols, validate_listener_name,
}
use kubernetes_ingress.CustomResources.Listeners.Allowed.{validate_listener_protocol-In}
use kubernetes_ingress.CustomResources.TransportServers.{
  tls_passthrough_listener_protocol, is_potential_tls_passthrough_listener,
  validate_transport_server_upstream_parameters, validate_transport_server_host,
  validate_regular_listener, validate_tls_passthrough_listener, validate_transport_listener,
  validate_transport_upstreams_from, validate_transport_server_upstreams,
  validate_transport_server_action, validate_transport_server_spec, validate_transport_server,
}

-- The built-in listener, where TLS Passthrough is enabled.
abbrev pub IsPassthrough : Bool → TransportServerListener → Type 0
IsPassthrough tls_passthrough listener =
    (tls_passthrough ≡ true)
    × (listener.name ≡ tls_passthrough_listener_name)
    × (listener.protocol ≡ tls_passthrough_listener_protocol)

-- A TCP or UDP listener of another name.
abbrev pub IsRegular : TransportServerListener → Type 0
IsRegular listener =
    ¬ (listener.name ≡ tls_passthrough_listener_name) × In listener.protocol listener_protocols

-- The listener is the built-in one, or a regular one without a host; the upstreams have different names;
-- and the action passes connections to one of them.
pub record IsServed (tls_passthrough : Bool) (spec : TransportServerSpec) : Type 0 where
  listener :
      IsPassthrough tls_passthrough spec.listener ⊎ (IsRegular spec.listener × (spec.host ≡ ""))
  upstream_names : Distinct (map (λ u. u.name) spec.upstreams)
  has_action : ¬ (spec.action ≡ none)
  action :
      (a : TransportServerAction)
      → spec.action ≡ some a
      → In a.pass (map (λ u. u.name) spec.upstreams)

is_potential-named :
    (listener : TransportServerListener)
    → is_potential_tls_passthrough_listener listener ≡ false
    → ¬ (listener.name ≡ tls_passthrough_listener_name)
unfolding is_potential_tls_passthrough_listener
is_potential-named listener p e =
    ground (arith, p, (eq_iff listener.name tls_passthrough_listener_name).1 e)

module _ (checks : Checks) (tls_passthrough : Bool) where
  validate_tls_passthrough_listener-IsPassthrough :
      (listener : TransportServerListener) (path : FieldPath)
      → is_potential_tls_passthrough_listener listener ≡ true
      → validate_tls_passthrough_listener checks tls_passthrough listener path ≡ []
      → IsPassthrough tls_passthrough listener
  unfolding validate_tls_passthrough_listener is_potential_tls_passthrough_listener
  validate_tls_passthrough_listener-IsPassthrough listener path p h =
      let is_named = listener.name == tls_passthrough_listener_name in
      let is_spoken = listener.protocol == tls_passthrough_listener_protocol in
      let (on, h1) = if-forbidden (not tls_passthrough) _ _ h in
      let (named, h2) = if-forbidden (is_named && not is_spoken) _ _ h1 in
      let (spoken, _) = if-forbidden (is_spoken && not is_named) _ [] h2 in
      (
        ground (arith, on),
        (eq_iff listener.name tls_passthrough_listener_name).0 (ground (arith, p, named, spoken)),
        (eq_iff listener.protocol tls_passthrough_listener_protocol).0
            (ground (arith, p, named, spoken)),
      )

  -- A listener and a host without errors.
  validate_transport_listener-host :
      (spec : TransportServerSpec) (path host_path : FieldPath)
      → validate_transport_listener checks tls_passthrough spec.listener path ≡ []
      → validate_transport_server_host checks tls_passthrough spec.host host_path
          (is_potential_tls_passthrough_listener spec.listener)
        ≡ []
      → IsPassthrough tls_passthrough spec.listener ⊎ (IsRegular spec.listener × (spec.host ≡ ""))
  unfolding validate_transport_listener validate_transport_server_host validate_regular_listener
  validate_transport_listener-host spec path host_path h host =
      elim (Bool-cases (is_potential_tls_passthrough_listener spec.listener)) [
        | inl p ↦
            inl (validate_tls_passthrough_listener-IsPassthrough spec.listener path p (rw p at h))
        | inr p ↦
            let (_, spoken) =
              append-[] (validate_listener_name checks spec.listener.name (child path "name")) _
                (rw p at h) in
            let no_host = rw p at host in
            inr (
              (
                is_potential-named spec.listener p,
                validate_listener_protocol-In spec.listener.protocol _ spoken,
              ),
              (eq_iff spec.host "").0 (if-required (spec.host == "") _ no_host),
            )
      ]

  validate_transport_upstreams_from-AddsNames :
      (i : ℕ) (names : List String) (us : List TransportServerUpstream) (path : FieldPath)
      → (validate_transport_upstreams_from checks tls_passthrough i names us path).0 ≡ []
      → AddsNames names
          (map (λ u. u.name) us)
          (validate_transport_upstreams_from checks tls_passthrough i names us path).1
  unfolding validate_transport_upstreams_from
  validate_transport_upstreams_from-AddsNames i names [] path h = record {
    distinct = tt;
    fresh = λ x _ n. n;
    known = λ x n. inl n;
  }
  validate_transport_upstreams_from-AddsNames i names (u ∷ us) path h =
      let named = add_upstream_name checks u.name (child (index path i) "name") names in
      let rest = validate_transport_upstreams_from checks tls_passthrough (suc i) named.1 us path in
      let (e, es) = append-[] named.0 _ h in
      let (_, es1) =
        append-[] (validate_service_name checks u.service (child (index path i) "service")) _ es in
      let (_, rest_ok) =
        append-[]
          (invalid_int_all (child (index path i) "port") u.port (checks.is_valid_port_num u.port))
          rest.0 es1 in
      let (new, added) =
        add_upstream_name-new checks u.name (child (index path i) "name") names e in
      AddsNames-∷ names u.name (map (λ u. u.name) us) rest.1 new (
        subst (λ ns. AddsNames ns (map (λ u. u.name) us) rest.1) added
          (validate_transport_upstreams_from-AddsNames (suc i) named.1 us path rest_ok))

  validate_transport_server_action-In :
      (action : Option TransportServerAction) (path : FieldPath) (names : List String)
      → validate_transport_server_action checks tls_passthrough action path names ≡ []
      → ¬ (action ≡ none) × ((a : TransportServerAction) → action ≡ some a → In a.pass names)
  unfolding validate_transport_server_action
  validate_transport_server_action-In none path names h = absurd (ground (arith, h))
  validate_transport_server_action-In (some action) path names h =
      let pass =
        validate_referenced_upstream-In checks action.pass (child path "pass") names
          (if-forbidden (action.pass == "") _ _ h).1 in
      (
        (λ e. ground (arith, e)),
        λ a e. subst (λ (b : TransportServerAction). In b.pass names) (ground (arith, e)) pass,
      )

  -- A TransportServer that is validated without errors uses the built-in TLS Passthrough listener, which is
  -- enabled, or a TCP or UDP listener of another name and no host; its upstreams have different names; and
  -- it has an action, whose upstream is one of them.
  pub validate_transport_server-IsServed :
      (spec : TransportServerSpec)
      → validate_transport_server checks tls_passthrough spec ≡ []
      → IsServed tls_passthrough spec
  unfolding validate_transport_server validate_transport_server_spec
      validate_transport_server_upstreams
  validate_transport_server-IsServed spec h =
      let at = new_path "spec" in
      let (listener, h1) =
        append-[]
          (validate_transport_listener checks tls_passthrough spec.listener (child at "listener")) _
          h in
      let (host, h2) =
        append-[]
          (validate_transport_server_host checks tls_passthrough spec.host (child at "host")
            (is_potential_tls_passthrough_listener spec.listener))
          _ h1 in
      let (us, h3) =
        append-[]
          (validate_transport_upstreams_from checks tls_passthrough 0 [] spec.upstreams
            (child at "upstreams")).0
          _ h2 in
      let (_, act) =
        append-[]
          (validate_transport_server_upstream_parameters spec.upstream_parameters
            (child at "upstreamParameters") spec.listener.protocol)
          _ h3 in
      let adds = validate_transport_upstreams_from-AddsNames 0 [] spec.upstreams _ us in
      let (has, pass) = validate_transport_server_action-In spec.action _ _ act in
      record {
        listener = validate_transport_listener-host spec _ _ listener host;
        upstream_names = adds.distinct;
        has_action = has;
        action = λ a e. elim (adds.known a.pass (pass a e)) [ inl n ↦ absurd n | inr j ↦ j ];
      }

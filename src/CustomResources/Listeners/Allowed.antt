-- ===== src/CustomResources/Listeners/Allowed.antt =====
-- What each listener without errors may be.
use kubernetes_ingress.Prelude.{
  ℕ, suc, ℤ, String, ◌≡◌, ◌≢◌, refl, sym, subst, inl, inr, ◌==◌, eq_iff, Bool, false, List, [], ◌∷◌,
  In, append-[], arith,
}
use kubernetes_ingress.Api.Alpha.{Listener}
use kubernetes_ingress.Parsing.Strings.{contains}
use kubernetes_ingress.Parsing.Members.{contains-In}
use kubernetes_ingress.Validation.Errors.{FieldPath, child, index, ErrorList}
use kubernetes_ingress.CustomResources.Checks.{Checks, invalid_int_all}
use kubernetes_ingress.CustomResources.Passed.{if-required, if-forbidden}
use kubernetes_ingress.CustomResources.Listeners.{
  tls_passthrough_listener_name, listener_protocols, validate_listener_protocol, Seen,
  validate_global_configuration_listener_name, validate_listener_port, validate_listener,
  add_listener, validate_listeners_from, validate_listeners, validate_global_configuration,
}

-- A protocol without an error is TCP or UDP.
pub validate_listener_protocol-In :
    (protocol : String) (path : FieldPath)
    → validate_listener_protocol protocol path ≡ []
    → In protocol listener_protocols
unfolding validate_listener_protocol
validate_listener_protocol-In protocol path h =
    (contains-In listener_protocols protocol).0
      (if-required (contains listener_protocols protocol) _ (if-forbidden (protocol == "") _ _ h).1)

add_listener-clean :
    (errs : ErrorList) (l : Listener) (path : FieldPath) (i : ℕ) (seen : Seen)
    → (add_listener errs l path i seen).0 ≡ []
    → errs ≡ []
unfolding add_listener
add_listener-clean [] l path i seen h = refl
add_listener-clean (x ∷ xs) l path i seen h = absurd (ground (arith, h))

module _ (checks : Checks) (forbidden_listener_ports : ℤ → Bool) where
  -- A listener that is not the built-in one, on a valid port that is not taken, of a known protocol.
  pub record IsAllowed (l : Listener) : Type 0 where
    name : l.name ≢ tls_passthrough_listener_name
    free_port : forbidden_listener_ports l.port ≡ false
    valid_port : checks.is_valid_port_num l.port ≡ []
    protocol : In l.protocol listener_protocols

  validate_listener-IsAllowed :
      (l : Listener) (path : FieldPath)
      → validate_listener checks forbidden_listener_ports l path ≡ []
      → IsAllowed l
  unfolding validate_listener validate_listener_port validate_global_configuration_listener_name
  validate_listener-IsAllowed l path h =
      let (name, h1) =
        append-[]
          (validate_global_configuration_listener_name checks forbidden_listener_ports l.name
            (child path "name"))
          _ h in
      let (port, protocol) =
        append-[]
          (validate_listener_port checks forbidden_listener_ports l.port (child path "port")) _
          h1 in
      let (other, _) = if-forbidden (l.name == tls_passthrough_listener_name) _ _ name in
      let (free, valid) = if-forbidden (forbidden_listener_ports l.port) _ _ port in
      record {
        name = λ e. ground (arith, other, (eq_iff l.name tls_passthrough_listener_name).1 e);
        free_port = free;
        valid_port = no_messages (checks.is_valid_port_num l.port) valid;
        protocol = validate_listener_protocol-In l.protocol (child path "protocol") protocol;
      }
    where
      no_messages :
          (msgs : List String) → invalid_int_all (child path "port") l.port msgs ≡ [] → msgs ≡ []
      no_messages [] k = refl
      no_messages (m ∷ ms) k = absurd (ground (arith, k))

  validate_listeners_from-IsAllowed :
      (i : ℕ) (seen : Seen) (ls : List Listener) (path : FieldPath) (l : Listener)
      → validate_listeners_from checks forbidden_listener_ports i seen ls path ≡ []
      → In l ls
      → IsAllowed l
  unfolding validate_listeners_from
  validate_listeners_from-IsAllowed i seen [] path l h at = absurd at
  validate_listeners_from-IsAllowed i seen (k ∷ ls) path l h at =
      let errs = validate_listener checks forbidden_listener_ports k (index path i) in
      let added = add_listener errs k path i seen in
      let (ok, rest) =
        append-[] added.0
          (validate_listeners_from checks forbidden_listener_ports (suc i) added.1 ls path) h in
      elim at [
        | inl e ↦
            subst (λ x. IsAllowed x) (sym e)
              (validate_listener-IsAllowed k (index path i)
                (add_listener-clean errs k path i seen ok))
        | inr j ↦ validate_listeners_from-IsAllowed (suc i) added.1 ls path l rest j
      ]

  -- Each listener of a GlobalConfiguration that is validated without errors has a name other than that of
  -- the built-in listener, a port that is not forbidden and that the check of port numbers accepts, and the
  -- protocol TCP or UDP.
  pub validate_global_configuration-IsAllowed :
      (ls : List Listener) (l : Listener)
      → validate_global_configuration checks forbidden_listener_ports ls ≡ []
      → In l ls
      → IsAllowed l
  unfolding validate_global_configuration validate_listeners
  validate_global_configuration-IsAllowed ls l h at =
      validate_listeners_from-IsAllowed 0 _ ls _ l h at

-- ===== src/Configuration/Operations/Reachable.antt =====
-- The Configurations that the operations lead to.
use kubernetes_ingress.Prelude.{
  >>=-some, String, ◌≡◌, refl, sym, ◌∙◌, Bool, Option, none, some, lookup, arith, ◌>>=◌, subst,
}
use kubernetes_ingress.Api.{Ingress, VirtualServer, VirtualServerRoute, Object}
use kubernetes_ingress.Validation.Errors.{ErrorList}
use kubernetes_ingress.Configuration.{Configuration, VirtualServerValidator, new_configuration}
use kubernetes_ingress.Configuration.Hosts.{build_hosts_and_resources}
use kubernetes_ingress.Configuration.Operations.{
  Outcome, rebuild, changes_between, problems_of, report, report_route, add_or_update_ingress,
  delete_ingress, add_or_update_virtual_server, delete_virtual_server,
  add_or_update_virtual_server_route, delete_virtual_server_route, unchanged, store_ingress,
  store_virtual_server, store_virtual_server_route,
}
use kubernetes_ingress.Configuration.Operations.Stored.{
  IsValid, store_ingress-IsValid, store_virtual_server-IsValid, store_virtual_server_route-IsValid,
  delete_ingress-IsValid, delete_virtual_server-IsValid, delete_virtual_server_route-IsValid,
}

-- What the controller does with the Configuration.
pub data Event : Type 0 where
  ingress_updated : Ingress → Event
  ingress_deleted : String → Event
  virtual_server_updated : VirtualServer → Event
  virtual_server_deleted : String → Event
  route_updated : VirtualServerRoute → Event
  route_deleted : String → Event

unfoldable pub handle : (ErrorList → String) → Event → Configuration → Option Outcome
handle aggregate (ingress_updated ing) c = add_or_update_ingress aggregate ing c
handle aggregate (ingress_deleted key) c = delete_ingress key c
handle aggregate (virtual_server_updated vs) c = add_or_update_virtual_server vs c
handle aggregate (virtual_server_deleted key) c = delete_virtual_server key c
handle aggregate (route_updated vsr) c = add_or_update_virtual_server_route vsr c
handle aggregate (route_deleted key) c = delete_virtual_server_route key c

pub data Reachable (aggregate : ErrorList → String) : Configuration → Type 0 where
  start :
      (has_correct_ingress_class : Object → Bool) (is_plus : Bool)
      (validator : VirtualServerValidator)
      → Reachable aggregate (new_configuration has_correct_ingress_class is_plus validator)
  step :
      (event : Event) (c : Configuration) (out : Outcome)
      → Reachable aggregate c
      → handle aggregate event c ≡ some out
      → Reachable aggregate out.configuration

-- `rebuild` computes new hosts and problems, and leaves the rest of the Configuration alone.
pub rebuild_lem :
    (c : Configuration) (out : Outcome)
    → rebuild c ≡ some out
    → out.configuration
      ≡ record c { hosts = out.configuration.hosts; problems = out.configuration.problems }
unfolding rebuild
rebuild_lem c out e =
    let (built, _, e₁) = >>=-some (build_hosts_and_resources c) _ out e in
    let (changes, _, e₂) = >>=-some (changes_between c.hosts built.0) _ out e₁ in
    let (problems, _, e₃) = >>=-some (problems_of c built.0 built.1) _ out e₂ in ground arith

module _ (aggregate : ErrorList → String) where
  pub report-configuration :
      (error : Option String) (key : String) (object : Object) (message : String → String)
      (out : Outcome)
      → (report error key object message out).configuration ≡ out.configuration
  unfolding report
  report-configuration error key object message out = ground arith

  pub report_route-configuration :
      (error : Option String) (vsr : VirtualServerRoute) (out : Outcome)
      → (report_route error vsr out).configuration ≡ out.configuration
  unfolding report_route
  report_route-configuration none vsr out = refl
  report_route-configuration (some e) vsr out = refl

  rebuild-IsValid :
      (c : Configuration) (out : Outcome)
      → IsValid aggregate c
      → rebuild c ≡ some out
      → IsValid aggregate out.configuration
  rebuild-IsValid c out v e =
      subst (IsValid aggregate) (sym (rebuild_lem c out e))
        (record { ingress = v.ingress; virtual_server = v.virtual_server; route = v.route })

  -- An object whose report follows the rebuild.
  reported-IsValid :
      (c : Configuration) (out : Outcome) (error : Option String) (key : String) (object : Object)
      (message : String → String)
      → IsValid aggregate c
      → (rebuild c >>= λ o. some (report error key object message o)) ≡ some out
      → IsValid aggregate out.configuration
  reported-IsValid c out error key object message v e =
      let (o, made, same) = >>=-some (rebuild c) _ out e in
      let kept : o.configuration ≡ out.configuration =
        sym (report-configuration error key object message o) ∙ ground arith in
      subst (IsValid aggregate) kept (rebuild-IsValid c o v made)

  route_reported-IsValid :
      (c : Configuration) (out : Outcome) (error : Option String) (vsr : VirtualServerRoute)
      → IsValid aggregate c
      → (rebuild c >>= λ o. some (report_route error vsr o)) ≡ some out
      → IsValid aggregate out.configuration
  route_reported-IsValid c out error vsr v e =
      let (o, made, same) = >>=-some (rebuild c) _ out e in
      let kept : o.configuration ≡ out.configuration =
        sym (report_route-configuration error vsr o) ∙ ground arith in
      subst (IsValid aggregate) kept (rebuild-IsValid c o v made)

  -- A deletion does nothing, or it deletes and rebuilds.
  deleted-IsValid :
      {V : Type 0} (found : Option V) (c c' : Configuration) (out : Outcome)
      → IsValid aggregate c
      → IsValid aggregate c'
      → elim found [ none ↦ some (unchanged c) | some _ ↦ rebuild c' ] ≡ some out
      → IsValid aggregate out.configuration
  deleted-IsValid none c c' out v v' e =
      let same : c ≡ out.configuration = ground arith in subst (IsValid aggregate) same v
  deleted-IsValid (some _) c c' out v v' e = rebuild-IsValid c' out v' e

  pub handle-IsValid :
      (event : Event) (c : Configuration) (out : Outcome)
      → IsValid aggregate c
      → handle aggregate event c ≡ some out
      → IsValid aggregate out.configuration
  unfolding handle add_or_update_ingress delete_ingress add_or_update_virtual_server
      delete_virtual_server add_or_update_virtual_server_route delete_virtual_server_route
  handle-IsValid (ingress_updated ing) c out v e =
      reported-IsValid (store_ingress aggregate ing c) out _ _ _ _
        (store_ingress-IsValid aggregate c v ing) e
  handle-IsValid (ingress_deleted key) c out v e =
      deleted-IsValid (lookup key c.ingresses) c _ out v (delete_ingress-IsValid aggregate c v key)
        e
  handle-IsValid (virtual_server_updated vs) c out v e =
      reported-IsValid (store_virtual_server vs c) out _ _ _ _
        (store_virtual_server-IsValid aggregate c v vs) e
  handle-IsValid (virtual_server_deleted key) c out v e =
      deleted-IsValid (lookup key c.virtual_servers) c _ out v
        (delete_virtual_server-IsValid aggregate c v key) e
  handle-IsValid (route_updated vsr) c out v e =
      route_reported-IsValid (store_virtual_server_route vsr c) out _ _
        (store_virtual_server_route-IsValid aggregate c v vsr) e
  handle-IsValid (route_deleted key) c out v e =
      deleted-IsValid (lookup key c.virtual_server_routes) c _ out v
        (delete_virtual_server_route-IsValid aggregate c v key) e

  new_configuration-IsValid :
      (has_correct_ingress_class : Object → Bool) (is_plus : Bool)
      (validator : VirtualServerValidator)
      → IsValid aggregate (new_configuration has_correct_ingress_class is_plus validator)
  unfolding new_configuration lookup
  new_configuration-IsValid has_correct_ingress_class is_plus validator = record {
    ingress = λ k ing l. absurd (ground arith);
    virtual_server = λ k vs l. absurd (ground arith);
    route = λ k vsr l. absurd (ground arith);
  }

  -- In every Configuration that the operations lead to from `NewConfiguration`, each stored object is
  -- under its own key, has the right class and passed its validation.
  pub Reachable-IsValid : (c : Configuration) → Reachable aggregate c → IsValid aggregate c
  Reachable-IsValid c (start has_correct_ingress_class is_plus validator) =
      new_configuration-IsValid has_correct_ingress_class is_plus validator
  Reachable-IsValid c (step event c' out r e) =
      handle-IsValid event c' out (Reachable-IsValid c' r) e

-- ===== src/Configuration/Operations/Deployed.antt =====
-- The operations against the NGINX configs: what the controller writes and removes, event by event.
use kubernetes_ingress.Prelude.{
  String, ◌≡◌, ◌↔◌, refl, sym, ap, ◌∙◌, Bool, true, false, Option, none, some, StrMap, lookup,
  arith, subst, ◌>>=◌, >>=-some,
}
use kubernetes_ingress.Api.{Object}
use kubernetes_ingress.Validation.Errors.{ErrorList}
use kubernetes_ingress.Resource.{Resource}
use kubernetes_ingress.Configuration.{Configuration, VirtualServerValidator, new_configuration}
use kubernetes_ingress.Configuration.Hosts.{build_hosts_and_resources}
use kubernetes_ingress.Configuration.Hosts.Keyed.{IsKeyed}
use kubernetes_ingress.Configuration.Hosts.Consistent.{build_hosts_and_resources-IsConsistent}
use kubernetes_ingress.Configuration.Changes.Deploy.{Deployed, apply_changes, Active, IsConsistent}
use kubernetes_ingress.Configuration.Deployment.{changes_between-deploys}
use kubernetes_ingress.Configuration.Operations.{
  Outcome, rebuild, changes_between, problems_of, refer_all, report_route, unchanged, store_ingress,
  store_virtual_server, store_virtual_server_route, add_or_update_ingress, delete_ingress,
  add_or_update_virtual_server, delete_virtual_server, add_or_update_virtual_server_route,
  delete_virtual_server_route,
}
use kubernetes_ingress.Configuration.Operations.Stored.{
  IsValid, store_ingress-IsValid, store_virtual_server-IsValid, store_virtual_server_route-IsValid,
  delete_ingress-IsValid, delete_virtual_server-IsValid, delete_virtual_server_route-IsValid,
}
use kubernetes_ingress.Configuration.Operations.Reachable.{
  Event, ingress_updated, ingress_deleted, virtual_server_updated, virtual_server_deleted,
  route_updated, route_deleted, handle, Reachable, Reachable-IsValid, report-configuration,
  report_route-configuration,
}
use kubernetes_ingress.Configuration.Operations.Built.{IsValid-HasRules}
use kubernetes_ingress.Configuration.Operations.Effects.{
  apply_refer_all, apply_report, apply_report_route,
}

-- The configs are those of the resources that hold a host.
abbrev pub IsDeployed : StrMap Resource → Deployed → Type 0
IsDeployed hosts d = (k : String) → (d k ≡ true) ↔ Active hosts k

-- What an operation makes of consistent hosts.
record Deploys (hosts : StrMap Resource) (out : Outcome) : Type 0 where
  consistent : IsConsistent out.configuration.hosts
  deployed :
      (d : Deployed)
      → IsDeployed hosts d
      → IsDeployed out.configuration.hosts (apply_changes out.changes d)

module _ (aggregate : ErrorList → String) where
  IsValid-IsKeyed : (c : Configuration) → IsValid aggregate c → IsKeyed c
  IsValid-IsKeyed c v = record {
    ingress = λ k i l. (v.ingress k i l).0;
    virtual_server = λ k x l. (v.virtual_server k x l).0;
  }

  rebuild-Deploys :
      (c : Configuration) (out : Outcome)
      → IsValid aggregate c
      → IsConsistent c.hosts
      → rebuild c ≡ some out
      → Deploys c.hosts out
  unfolding rebuild
  rebuild-Deploys c out valid old e =
      let (built, eb, e₁) = >>=-some (build_hosts_and_resources c) _ out e in
      let (changes, ec, e₂) = >>=-some (changes_between c.hosts built.0) _ out e₁ in
      let (problems, ep, e₃) = >>=-some (problems_of c built.0 built.1) _ out e₂ in
      let (new, own) =
        build_hosts_and_resources-IsConsistent c (IsValid-HasRules aggregate c valid)
          (IsValid-IsKeyed c valid) built eb in
      let (changes', ec', deploys) = changes_between-deploys c.hosts built.0 old new in
      let hosts : built.0 ≡ out.configuration.hosts = ground arith in
      let made : refer_all built.1 changes ≡ out.changes = ground arith in
      let same : changes' ≡ changes = ground arith in
      record {
        consistent = subst IsConsistent hosts new;
        deployed = λ d now.
            subst (λ h. IsDeployed h (apply_changes out.changes d)) hosts
              (subst (λ x. IsDeployed built.0 x)
                (ap (λ x. apply_changes x d) same
                  ∙ (sym (apply_refer_all built.1 changes d own)
                      ∙ ap (λ x. apply_changes x d) made))
                (deploys d now));
      }

  -- What is added to the outcome of a rebuild leaves the Configuration and the effect of the changes.
  finished-Deploys :
      (c : Configuration) (finish : Outcome → Outcome) (out : Outcome)
      → ((o : Outcome) → (finish o).configuration ≡ o.configuration)
      → ((o : Outcome) (d : Deployed)
          → apply_changes (finish o).changes d ≡ apply_changes o.changes d)
      → IsValid aggregate c
      → IsConsistent c.hosts
      → (rebuild c >>= λ o. some (finish o)) ≡ some out
      → Deploys c.hosts out
  finished-Deploys c finish out keeps alike valid old e =
      let (o, made, done) = >>=-some (rebuild c) (λ o. some (finish o)) out e in
      let same : finish o ≡ out = ground arith in
      let r = rebuild-Deploys c o valid old made in
      subst (Deploys c.hosts) same (record {
        consistent = subst (λ x. IsConsistent x.hosts) (sym (keeps o)) r.consistent;
        deployed = λ d now.
            subst (λ x. IsDeployed x.hosts (apply_changes (finish o).changes d)) (sym (keeps o))
              (subst (IsDeployed o.configuration.hosts) (sym (alike o d)) (r.deployed d now));
      })

  unchanged-Deploys : (c : Configuration) → IsConsistent c.hosts → Deploys c.hosts (unchanged c)
  unfolding apply_changes
  unchanged-Deploys c old = record { consistent = old; deployed = λ d now. now }

  deleted-Deploys :
      {V : Type 0} (found : Option V) (c c' : Configuration) (out : Outcome)
      → c'.hosts ≡ c.hosts
      → IsValid aggregate c'
      → IsConsistent c.hosts
      → elim found [ none ↦ some (unchanged c) | some _ ↦ rebuild c' ] ≡ some out
      → Deploys c.hosts out
  deleted-Deploys none c c' out same valid old e =
      let here : unchanged c ≡ out = ground arith in
      subst (Deploys c.hosts) here (unchanged-Deploys c old)
  deleted-Deploys (some _) c c' out same valid old e =
      subst (λ h. Deploys h out) same
        (rebuild-Deploys c' out valid (subst IsConsistent (sym same) old) e)

  handle-Deploys :
      (event : Event) (c : Configuration) (out : Outcome)
      → IsValid aggregate c
      → IsConsistent c.hosts
      → handle aggregate event c ≡ some out
      → Deploys c.hosts out
  unfolding handle add_or_update_ingress delete_ingress add_or_update_virtual_server
      delete_virtual_server add_or_update_virtual_server_route delete_virtual_server_route
      store_ingress store_virtual_server store_virtual_server_route report_route
  handle-Deploys (ingress_updated ing) c out v old e =
      finished-Deploys (store_ingress aggregate ing c) _ out
        (report-configuration aggregate _ _ _ _) (apply_report _ _ _ _)
        (store_ingress-IsValid aggregate c v ing) old e
  handle-Deploys (ingress_deleted key) c out v old e =
      deleted-Deploys (lookup key c.ingresses) c _ out refl
        (delete_ingress-IsValid aggregate c v key) old e
  handle-Deploys (virtual_server_updated vs) c out v old e =
      finished-Deploys (store_virtual_server vs c) _ out (report-configuration aggregate _ _ _ _)
        (apply_report _ _ _ _) (store_virtual_server-IsValid aggregate c v vs) old e
  handle-Deploys (virtual_server_deleted key) c out v old e =
      deleted-Deploys (lookup key c.virtual_servers) c _ out refl
        (delete_virtual_server-IsValid aggregate c v key) old e
  handle-Deploys (route_updated vsr) c out v old e =
      finished-Deploys (store_virtual_server_route vsr c) _ out
        (report_route-configuration aggregate _ vsr) (λ o d. apply_report_route _ vsr o d)
        (store_virtual_server_route-IsValid aggregate c v vsr) old e
  handle-Deploys (route_deleted key) c out v old e =
      deleted-Deploys (lookup key c.virtual_server_routes) c _ out refl
        (delete_virtual_server_route-IsValid aggregate c v key) old e

  -- A run of the controller: after each event it applies the changes to the NGINX configs.
  pub data Run : Configuration → Deployed → Type 0 where
    start :
        (has_correct_ingress_class : Object → Bool) (is_plus : Bool)
        (validator : VirtualServerValidator)
        → Run (new_configuration has_correct_ingress_class is_plus validator) (λ k. false)
    step :
        (event : Event) (c : Configuration) (d : Deployed) (out : Outcome)
        → Run c d
        → handle aggregate event c ≡ some out
        → Run out.configuration (apply_changes out.changes d)

  Run-Reachable : (c : Configuration) (d : Deployed) → Run c d → Reachable aggregate c
  Run-Reachable c d (start cls plus validator) = Reachable.start cls plus validator
  Run-Reachable c d (step event c' d' out r e) =
      Reachable.step event c' out (Run-Reachable c' d' r) e

  new_configuration-IsConsistent :
      (cls : Object → Bool) (plus : Bool) (validator : VirtualServerValidator)
      → IsConsistent (new_configuration cls plus validator).hosts
  unfolding new_configuration lookup
  new_configuration-IsConsistent cls plus validator = record {
    own = λ h r l. absurd (ground arith);
    hosted = λ h h' r l claim. absurd (ground arith);
    unique = λ h h' r r' l l' e. absurd (ground arith);
  }

  new_configuration-IsDeployed :
      (cls : Object → Bool) (plus : Bool) (validator : VirtualServerValidator)
      → IsDeployed (new_configuration cls plus validator).hosts (λ k. false)
  unfolding new_configuration lookup
  new_configuration-IsDeployed cls plus validator k =
      ((λ e. cc), λ active. let (h, r, l, key) = active in absurd (ground arith))

  -- After every run of events from the start, the hosts of the Configuration are consistent, and the
  -- NGINX configs that the changes have written and not removed are exactly those of the resources
  -- that hold a host.
  pub Run-IsDeployed :
      (c : Configuration) (d : Deployed)
      → Run c d
      → IsConsistent c.hosts × ((k : String) → (d k ≡ true) ↔ Active c.hosts k)
  Run-IsDeployed c d (start cls plus validator) = (
    new_configuration-IsConsistent cls plus validator,
    new_configuration-IsDeployed cls plus validator,
  )
  Run-IsDeployed c d (step event c' d' out r e) =
      let (old, now) = Run-IsDeployed c' d' r in
      let made =
        handle-Deploys event c' out (Reachable-IsValid aggregate c' (Run-Reachable c' d' r)) old
          e in
      (made.consistent, made.deployed d' now)

-- ===== src/Tests/Runs.antt =====
-- A run of the controller, and the hosts that are built in it.
use kubernetes_ingress.Prelude.{String, ◌≡◌, ◌↔◌, true, false, lookup, arith, eq_iff, subst}
use kubernetes_ingress.Configuration.Hosts.Keyed.{IsKeyed}
use kubernetes_ingress.Configuration.Hosts.Returned.{build_hosts_and_resources_returns}
use kubernetes_ingress.Configuration.Hosts.Consistent.{
  AtOwnKey, build_hosts_and_resources-IsConsistent,
}
use kubernetes_ingress.Configuration.Changes.Deploy.{Deployed, Active, IsConsistent, apply_changes}
use kubernetes_ingress.Configuration.Operations.Reachable.{virtual_server_updated}
use kubernetes_ingress.Configuration.Operations.Deployed.{Run, start, step, Run-IsDeployed}
use kubernetes_ingress.Api.{get_resource_key}
use kubernetes_ingress.Configuration.Changes.SquashLoop.{squash-final}
use kubernetes_ingress.Configuration.Changes.SquashOrder.{DeletesFirst, squash-DeletesFirst}
use kubernetes_ingress.Tests.{
  three_changes, aggregate, nothing_yet, cafe, validator, cafe_added, cafe_added_lem, cafe_stored,
  contested, contested-HasRules, rival,
}

abbrev cafe_deployed : Deployed
cafe_deployed = apply_changes cafe_added.changes (λ k. false)

cafe-Run : Run aggregate cafe_stored cafe_deployed
cafe-Run =
    step (virtual_server_updated cafe) nothing_yet (λ k. false) cafe_added
      (start (λ object. true) false validator) cafe_added_lem

Run-IsDeployed_example :
    IsConsistent cafe_stored.hosts
    × ((k : String) → (cafe_deployed k ≡ true) ↔ Active cafe_stored.hosts k)
Run-IsDeployed_example = Run-IsDeployed aggregate cafe_stored cafe_deployed cafe-Run

contested-IsKeyed : IsKeyed contested
unfolding lookup get_resource_key
contested-IsKeyed = record {
  ingress = λ k i l.
      let at : "default/late" ≡ k = ground (arith, eq_iff "default/late" k) in
      let same : rival ≡ i = ground (arith, eq_iff "default/late" k) in
      subst (λ x. get_resource_key x.meta ≡ k) same at;
  virtual_server = λ k v l.
      let at : "default/cafe" ≡ k = ground (arith, eq_iff "default/cafe" k) in
      let same : cafe ≡ v = ground (arith, eq_iff "default/cafe" k) in
      subst (λ x. get_resource_key x.meta ≡ k) same at;
}

build_hosts_and_resources-IsConsistent_example :
    IsConsistent (build_hosts_and_resources_returns contested contested-HasRules).0.0
    × AtOwnKey (build_hosts_and_resources_returns contested contested-HasRules).0.1
build_hosts_and_resources-IsConsistent_example =
    build_hosts_and_resources-IsConsistent contested contested-HasRules contested-IsKeyed
      (build_hosts_and_resources_returns contested contested-HasRules).0
      (build_hosts_and_resources_returns contested contested-HasRules).1

squash-DeletesFirst_example : DeletesFirst (squash-final three_changes).0
squash-DeletesFirst_example =
    squash-DeletesFirst three_changes (squash-final three_changes).0 (squash-final three_changes).1

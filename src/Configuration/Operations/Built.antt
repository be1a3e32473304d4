-- ===== src/Configuration/Operations/Built.antt =====
-- In the reachable Configurations the hosts can be built, so that no operation panics.
use kubernetes_ingress.Prelude.{
  some, inl, inr, Bool-cases, StrMap, fold_while_inv, ◌>>=◌, lookup, Option, none, String, ◌≡◌,
  refl, [], ◌∷◌, In, sorted_values, sorted_values-In, arith,
}
use kubernetes_ingress.Api.{is_minion, Ingress}
use kubernetes_ingress.Resource.{Resource}
use kubernetes_ingress.Configuration.Hosts.Returned.{build_hosts_and_resources_returns}
use kubernetes_ingress.Configuration.Deployment.{changes_between_returns}
use kubernetes_ingress.Configuration.Problems.{
  Problems, problem_for_orphan_minion, add_problems_for_orphan_minions, detect_changes_in_problems,
  add_problems_for_resources_without_active_host, add_problems_for_orphan_or_ignored_vsrs,
}
use kubernetes_ingress.Configuration.Operations.{
  Outcome, problems_of, rebuild, refer_all, unchanged, store_ingress, store_virtual_server,
  store_virtual_server_route, add_or_update_ingress, delete_ingress, add_or_update_virtual_server,
  delete_virtual_server, add_or_update_virtual_server_route, delete_virtual_server_route,
  ingress_error,
}
use kubernetes_ingress.Configuration.Operations.Stored.{
  store_ingress-IsValid, store_virtual_server-IsValid, store_virtual_server_route-IsValid,
  delete_ingress-IsValid, delete_virtual_server-IsValid, delete_virtual_server_route-IsValid,
  IsValid,
}
use kubernetes_ingress.Configuration.Operations.Reachable.{
  Event, ingress_updated, ingress_deleted, virtual_server_updated, virtual_server_deleted,
  route_updated, route_deleted, handle, Reachable, Reachable-IsValid,
}
use kubernetes_ingress.Validation.{validate_ingress}
use kubernetes_ingress.Validation.Errors.{ErrorList}
use kubernetes_ingress.Validation.Accepted.{validate_ingress-HasRules}
use kubernetes_ingress.Configuration.{Configuration}
use kubernetes_ingress.Configuration.Minions.Returns.{HasRules}
use kubernetes_ingress.Configuration.Minions.{first_host}

module _ (aggregate : ErrorList → String) (c : Configuration) where
  ingress_error-none :
      (ing : Ingress) (errors : ErrorList)
      → validate_ingress ing c.is_plus ≡ errors
      → ingress_error aggregate ing c.is_plus ≡ none
      → validate_ingress ing c.is_plus ≡ []
  unfolding ingress_error
  ingress_error-none ing [] e h = e
  ingress_error-none ing (x ∷ errors) e h = absurd (ground arith)

  pub IsValid-HasRules :
      IsValid aggregate c → (i : Ingress) → In i (sorted_values c.ingresses) → HasRules i
  IsValid-HasRules valid i at =
      let (k, look) = sorted_values-In c.ingresses i at in
      let (_, _, passed) = valid.ingress k i look in
      validate_ingress-HasRules i c.is_plus
        (ingress_error-none i (validate_ingress i c.is_plus) refl passed)

  -- In every Configuration that the operations lead to from `NewConfiguration`, the first rule of
  -- each stored Ingress and the paths of each stored minion can be read without a panic.
  pub Reachable-HasRules :
      Reachable aggregate c → (i : Ingress) → In i (sorted_values c.ingresses) → HasRules i
  Reachable-HasRules r = IsValid-HasRules (Reachable-IsValid aggregate c r)

>>=-returns :
    {A B : Type 0} (o : Option A) (f : A → B)
    → (a : A) × (o ≡ some a)
    → (b : B) × ((o >>= λ x. some (f x)) ≡ some b)
>>=-returns none f (a, e) = cc
>>=-returns (some x) f z = (f x, refl)

problem_for_orphan_minion_returns :
    (hosts : StrMap Resource) (problems : Problems) (ing : Ingress)
    → HasRules ing
    → (out : Problems) × (problem_for_orphan_minion hosts problems ing ≡ some out)
unfolding problem_for_orphan_minion
problem_for_orphan_minion_returns hosts problems ing r = elim (Bool-cases (is_minion ing)) [
  | inr m ↦ (problems, rw (m, problem_for_orphan_minion) refl)
  | inl m ↦ rw (m, problem_for_orphan_minion) (>>=-returns (first_host ing) _ r.host)
]

problems_of_returns :
    (c : Configuration) (new_hosts new_resources : StrMap Resource)
    → ((i : Ingress) → In i (sorted_values c.ingresses) → HasRules i)
    → (problems : Problems) × (problems_of c new_hosts new_resources ≡ some problems)
unfolding problems_of add_problems_for_orphan_minions
problems_of_returns c new_hosts new_resources rules =
    let (s, run, _) =
      fold_while_inv (λ todo s. (i : Ingress) → In i todo → HasRules i)
        (problem_for_orphan_minion new_hosts)
        (λ todo ing s p.
          let (t, e) = problem_for_orphan_minion_returns new_hosts s ing (p ing (inl refl)) in
          (t, e, λ i m. p i (inr m)))
        (add_problems_for_resources_without_active_host new_hosts new_resources [])
        (sorted_values c.ingresses) rules in
    (
      add_problems_for_orphan_or_ignored_vsrs new_hosts c.virtual_server_routes s,
      rw (run, problems_of, add_problems_for_orphan_minions) refl,
    )

rebuild_returns :
    (c : Configuration)
    → ((i : Ingress) → In i (sorted_values c.ingresses) → HasRules i)
    → (out : Outcome) × (rebuild c ≡ some out)
unfolding rebuild
rebuild_returns c rules =
    let (built, eb) = build_hosts_and_resources_returns c rules in
    let (changes, ec) = changes_between_returns c.hosts built.0 in
    let (problems, ep) = problems_of_returns c built.0 built.1 rules in
    (
      record {
        configuration = record c { hosts = built.0; problems = problems };
        changes = refer_all built.1 changes;
        problems = detect_changes_in_problems problems c.problems;
      },
      rw (eb, rebuild) (rw ec (rw ep refl)),
    )

module _ (aggregate : ErrorList → String) where
  rebuild_valid_returns :
      (c : Configuration) → IsValid aggregate c → (out : Outcome) × (rebuild c ≡ some out)
  rebuild_valid_returns c valid = rebuild_returns c (IsValid-HasRules aggregate c valid)

  deleted_returns :
      {V : Type 0} (found : Option V) (c c' : Configuration)
      → IsValid aggregate c'
      → (out : Outcome) × (elim found [ none ↦ some (unchanged c) | some _ ↦ rebuild c' ]
          ≡ some out)
  deleted_returns none c c' valid = (unchanged c, refl)
  deleted_returns (some _) c c' valid = rebuild_valid_returns c' valid

  -- In every Configuration that the operations lead to from `NewConfiguration`, each operation returns
  -- an outcome: none of them panics.
  pub Reachable-handle :
      (event : Event) (c : Configuration)
      → Reachable aggregate c
      → (out : Outcome) × (handle aggregate event c ≡ some out)
  unfolding handle add_or_update_ingress delete_ingress add_or_update_virtual_server
      delete_virtual_server add_or_update_virtual_server_route delete_virtual_server_route
  Reachable-handle (ingress_updated ing) c r =
      >>=-returns (rebuild (store_ingress aggregate ing c)) _ (
        rebuild_valid_returns _
          (store_ingress-IsValid aggregate c (Reachable-IsValid aggregate c r) ing))
  Reachable-handle (ingress_deleted key) c r =
      deleted_returns (lookup key c.ingresses) c _
        (delete_ingress-IsValid aggregate c (Reachable-IsValid aggregate c r) key)
  Reachable-handle (virtual_server_updated vs) c r =
      >>=-returns (rebuild (store_virtual_server vs c)) _ (
        rebuild_valid_returns _
          (store_virtual_server-IsValid aggregate c (Reachable-IsValid aggregate c r) vs))
  Reachable-handle (virtual_server_deleted key) c r =
      deleted_returns (lookup key c.virtual_servers) c _
        (delete_virtual_server-IsValid aggregate c (Reachable-IsValid aggregate c r) key)
  Reachable-handle (route_updated vsr) c r =
      >>=-returns (rebuild (store_virtual_server_route vsr c)) _ (
        rebuild_valid_returns _
          (store_virtual_server_route-IsValid aggregate c (Reachable-IsValid aggregate c r) vsr))
  Reachable-handle (route_deleted key) c r =
      deleted_returns (lookup key c.virtual_server_routes) c _
        (delete_virtual_server_route-IsValid aggregate c (Reachable-IsValid aggregate c r) key)

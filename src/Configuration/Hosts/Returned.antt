-- ===== src/Configuration/Hosts/Returned.antt =====
-- `buildHostsAndResources` returns: no pointer dangles.
use kubernetes_ingress.Prelude.{
  ℕ, String, ◌≡◌, refl, inl, inr, some, List, [], ◌∷◌, StrMap, lookup, In, keys, keys-In,
  sorted_values, get_elem?,
}
use kubernetes_ingress.Api.{Ingress}
use kubernetes_ingress.Resource.{Resource}
use kubernetes_ingress.Configuration.{Configuration}
use kubernetes_ingress.Configuration.Minions.Returns.{HasRules}
use kubernetes_ingress.Configuration.Hosts.{
  build_hosts_and_resources, dereference, dereference_keys,
}
use kubernetes_ingress.Configuration.Hosts.Effects.{Origin, origin_at, origin_at-get}
use kubernetes_ingress.Configuration.Hosts.Built.{build_hosts_lem}

dereference_keys_returns :
    (heap : List Resource) (m : StrMap ℕ) (ks : List String)
    → ((k : String)
        → In k ks
        → (a : ℕ) × (r : Resource) × (lookup k m ≡ some a) × (get_elem? heap a ≡ some r))
    → (out : StrMap Resource) × (dereference_keys heap m ks ≡ some out)
unfolding dereference_keys
dereference_keys_returns heap m [] f = ([], refl)
dereference_keys_returns heap m (k ∷ ks) f =
    let (a, r, look, get) = f k (inl refl) in
    let (rest, run) = dereference_keys_returns heap m ks (λ x i. f x (inr i)) in
    ((k, r) ∷ rest, rw (look, dereference_keys) (rw get (rw run refl)))

dereference_returns :
    (heap : List Resource) (m : StrMap ℕ)
    → ((k : String) (a : ℕ) → lookup k m ≡ some a → (o : Origin) × (origin_at heap a ≡ some o))
    → (out : StrMap Resource) × (dereference heap m ≡ some out)
unfolding dereference
dereference_returns heap m alive = dereference_keys_returns heap m (keys m) (λ k i.
    let (a, look) = keys-In k m i in
    let (o, at) = alive k a look in
    let (r, get, _) = origin_at-get heap a o at in (a, r, look, get))

-- If every stored Ingress has rules, and paths where it is a minion, hosts and resources are built.
pub build_hosts_and_resources_returns :
    (c : Configuration)
    → ((i : Ingress) → In i (sorted_values c.ingresses) → HasRules i)
    → (built : StrMap Resource × StrMap Resource) × (build_hosts_and_resources c ≡ some built)
unfolding build_hosts_and_resources
build_hosts_and_resources_returns c rules =
    let (s, run, fair, alive, _, _) = build_hosts_lem c rules in
    let (hosts, eh) =
      dereference_returns s.heap s.hosts
        (λ h a look. let (o, at, _) = fair.owner h a look in (o, at)) in
    let (resources, er) = dereference_returns s.heap s.resources alive in
    ((hosts, resources), rw (run, build_hosts_and_resources) (rw eh (rw er refl)))

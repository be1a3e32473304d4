-- ===== src/Configuration/Hosts/Keyed.antt =====
-- The two loops of `buildHostsAndResources` over objects that are stored under their own keys: no key
-- of `newResources` is written twice.
use kubernetes_ingress.Prelude.{
  String, ◌≡◌, ◌≢◌, refl, sym, ap, ◌∙◌, inl, inr, none, some, List, [], ◌∷◌, map, lookup, arith,
  Bool-cases, In, Distinct, fold_while_inv, subst, sorted_values, map-sorted_values-Distinct,
  key_injective, ingress-ne-virtual_server,
}
use kubernetes_ingress.Api.{
  Ingress, VirtualServer, is_minion, get_resource_key, ingress_kind, virtual_server_kind,
}
use kubernetes_ingress.Configuration.{Configuration}
use kubernetes_ingress.Configuration.Minions.Returns.{HasRules}
use kubernetes_ingress.Configuration.Hosts.{HostBuild, add_ingress, add_virtual_server, build_hosts}
use kubernetes_ingress.Configuration.Hosts.Effects.{
  Origin, from_ingress, from_virtual_server, origin_at, origin_key,
}
use kubernetes_ingress.Configuration.Hosts.Fairness.{IsFair}
use kubernetes_ingress.Configuration.Hosts.Build.{Nothing}
use kubernetes_ingress.Configuration.Hosts.Registry.{IsRegistered}
use kubernetes_ingress.Configuration.Hosts.Steps.{add_ingress_returns, add_virtual_server_returns}
use kubernetes_ingress.Configuration.Hosts.Built.{empty-IsFair}

abbrev ingress_key : Ingress → String
ingress_key i = get_resource_key i.meta

abbrev server_key : VirtualServer → String
server_key v = get_resource_key v.meta

-- Every stored object is under its own key.
pub record IsKeyed (c : Configuration) : Type 0 where
  pub ingress :
      (k : String) (i : Ingress) → lookup k c.ingresses ≡ some i → get_resource_key i.meta ≡ k
  pub virtual_server :
      (k : String) (v : VirtualServer)
      → lookup k c.virtual_servers ≡ some v
      → get_resource_key v.meta ≡ k

-- Nothing is registered under the key of the object.
abbrev Free : HostBuild → Origin → Type 0
Free s o = lookup (origin_key o) s.resources ≡ none

ingress_keys :
    (i j : Ingress)
    → ingress_key i ≢ ingress_key j
    → origin_key (from_ingress i) ≢ origin_key (from_ingress j)
unfolding origin_key
ingress_keys i j n e = n (key_injective ingress_kind (ingress_key i) (ingress_key j) e)

server_keys :
    (v w : VirtualServer)
    → server_key v ≢ server_key w
    → origin_key (from_virtual_server v) ≢ origin_key (from_virtual_server w)
unfolding origin_key
server_keys v w n e = n (key_injective virtual_server_kind (server_key v) (server_key w) e)

kinds-ne :
    (i : Ingress) (v : VirtualServer)
    → origin_key (from_ingress i) ≢ origin_key (from_virtual_server v)
unfolding origin_key
kinds-ne i v = ingress-ne-virtual_server (ingress_key i) (server_key v)

In-map : {A : Type 0} (f : A → String) (xs : List A) (x : A) → In x xs → In (f x) (map f xs)
In-map f [] x i = absurd i
In-map f (y ∷ xs) x (inl e) = inl (ap f e)
In-map f (y ∷ xs) x (inr i) = inr (In-map f xs x i)

-- An element of the rest has another key than the head.
later-ne :
    {A : Type 0} (f : A → String) (x : A) (xs : List A)
    → ¬ (In (f x) (map f xs))
    → (y : A) → In y xs
    → f x ≢ f y
later-ne f x xs n y i e = n (subst (λ k. In k (map f xs)) (sym e) (In-map f xs y i))

module _ (c : Configuration)
    (rules : (i : Ingress) → In i (sorted_values c.ingresses) → HasRules i) where
  record IngressLoop (todo : List Ingress) (s : HostBuild) : Type 0 where
    part : (i : Ingress) → In i todo → In i (sorted_values c.ingresses)
    distinct : Distinct (map ingress_key todo)
    fair : IsFair Nothing s
    registered : IsRegistered s
    fresh : (i : Ingress) → In i todo → Free s (from_ingress i)
    foreign : (v : VirtualServer) → Free s (from_virtual_server v)

  ingress_step :
      (todo : List Ingress) (ing : Ingress) (s : HostBuild)
      → IngressLoop (ing ∷ todo) s
      → (t : HostBuild) × (add_ingress c s ing ≡ some t) × IngressLoop todo t
  unfolding add_ingress
  ingress_step todo ing s p = elim (Bool-cases (is_minion ing)) [
    | inl m ↦ (
      s,
      rw m refl,
      record {
        part = λ i m. p.part i (inr m);
        distinct = p.distinct.1;
        fair = p.fair;
        registered = p.registered;
        fresh = λ i m. p.fresh i (inr m);
        foreign = p.foreign;
      },
    )
    | inr m ↦
        let (t, run, turned) =
          add_ingress_returns c s ing rules (rules ing (p.part ing (inl refl))) p.fair m in
        (
          t,
          run,
          record {
            part = λ i m. p.part i (inr m);
            distinct = p.distinct.1;
            fair = turned.fair;
            registered = turned.registered (p.fresh ing (inl refl)) p.registered;
            fresh = λ i j.
                turned.others (origin_key (from_ingress i))
                  (ingress_keys ing i (later-ne ingress_key ing todo p.distinct.0 i j))
                ∙ p.fresh i (inr j);
            foreign = λ v.
                turned.others (origin_key (from_virtual_server v)) (kinds-ne ing v) ∙ p.foreign v;
          },
        )
  ]

  record VirtualServerLoop (todo : List VirtualServer) (s : HostBuild) : Type 0 where
    distinct : Distinct (map server_key todo)
    fair : IsFair Nothing s
    registered : IsRegistered s
    fresh : (v : VirtualServer) → In v todo → Free s (from_virtual_server v)

  virtual_server_step :
      (todo : List VirtualServer) (vs : VirtualServer) (s : HostBuild)
      → VirtualServerLoop (vs ∷ todo) s
      → (t : HostBuild) × (add_virtual_server c s vs ≡ some t) × VirtualServerLoop todo t
  virtual_server_step todo vs s p =
      let (t, run, turned) = add_virtual_server_returns c s vs p.fair in
      (
        t,
        run,
        record {
          distinct = p.distinct.1;
          fair = turned.fair;
          registered = turned.registered (p.fresh vs (inl refl)) p.registered;
          fresh = λ v j.
              turned.others (origin_key (from_virtual_server v))
                (server_keys vs v (later-ne server_key vs todo p.distinct.0 v j))
              ∙ p.fresh v (inr j);
        },
      )

  empty-IsRegistered : IsRegistered (record { heap = []; hosts = []; resources = [] })
  unfolding origin_at lookup
  empty-IsRegistered = record {
    entered = λ a o at. absurd (ground arith);
    entry = λ k a look. absurd (ground arith);
  }

  empty-Free : (o : Origin) → Free (record { heap = []; hosts = []; resources = [] }) o
  unfolding lookup
  empty-Free o = refl

  pub build_hosts-IsRegistered :
      IsKeyed c → (s : HostBuild) × (build_hosts c ≡ some s) × IsFair Nothing s × IsRegistered s
  unfolding build_hosts
  build_hosts-IsRegistered keyed =
      let (s, run, p) =
        fold_while_inv IngressLoop (add_ingress c) ingress_step
          (record { heap = []; hosts = []; resources = [] }) (sorted_values c.ingresses)
          (record {
            part = λ i m. m;
            distinct = map-sorted_values-Distinct ingress_key c.ingresses keyed.ingress;
            fair = empty-IsFair c rules;
            registered = empty-IsRegistered;
            fresh = λ i at. empty-Free (from_ingress i);
            foreign = λ v. empty-Free (from_virtual_server v);
          }) in
      let (t, run', q) =
        fold_while_inv VirtualServerLoop (add_virtual_server c) virtual_server_step s
          (sorted_values c.virtual_servers)
          (record {
            distinct = map-sorted_values-Distinct server_key c.virtual_servers keyed.virtual_server;
            fair = p.fair;
            registered = p.registered;
            fresh = λ v at. p.foreign v;
          }) in
      (t, rw (run, build_hosts) run', q.fair, q.registered)

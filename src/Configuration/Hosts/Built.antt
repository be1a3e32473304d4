-- ===== src/Configuration/Hosts/Built.antt =====
-- The two loops of `buildHostsAndResources` as a whole, from all stored objects.
use kubernetes_ingress.Prelude.{
  ℕ, ◌<◌, str_lt, String, ◌≡◌, refl, sym, ◌⊎◌, inl, inr, true, false, some, List, [], ◌∷◌, lookup,
  arith, Bool-cases, In, fold_while_inv, subst, sorted_values, In-sorted_values,
}
use kubernetes_ingress.Api.{ObjectMeta, Ingress, VirtualServer, is_minion}
use kubernetes_ingress.Resource.{choose_object_meta_winner}
use kubernetes_ingress.Configuration.{Configuration}
use kubernetes_ingress.Configuration.Minions.Returns.{HasRules}
use kubernetes_ingress.Configuration.Hosts.{HostBuild, add_ingress, add_virtual_server, build_hosts}
use kubernetes_ingress.Configuration.Hosts.Effects.{
  origin_meta, Origin, from_ingress, from_virtual_server, origin_at,
}
use kubernetes_ingress.Configuration.Hosts.Fairness.{IsFair, Beaten, OriginClaims}
use kubernetes_ingress.Configuration.Hosts.Build.{Nothing}
use kubernetes_ingress.Configuration.Hosts.Steps.{
  Held, Alive, add_ingress_returns, add_virtual_server_returns,
}

-- An older object, or one as old whose UID is not smaller.
abbrev pub IsElder : ObjectMeta → ObjectMeta → Type 0
IsElder b a =
    (b.creation_timestamp < a.creation_timestamp)
    ⊎ ((b.creation_timestamp ≡ a.creation_timestamp) × (str_lt b.uid a.uid ≡ false))

choose_object_meta_winner-IsElder :
    (a b : ObjectMeta) → choose_object_meta_winner a b ≡ false → IsElder b a
unfolding choose_object_meta_winner
choose_object_meta_winner-IsElder a b h = ground (arith, h)

-- The host has a holder, which asks for it and is an elder of the object.
abbrev pub HeldByElder : HostBuild → Origin → String → Type 0
HeldByElder s o h =
    (b : ℕ) × (ob : Origin) × (lookup h s.hosts ≡ some b)
    × (origin_at s.heap b ≡ some ob)
    × OriginClaims ob h
    × IsElder (origin_meta ob) (origin_meta o)

Beaten-HeldByElder :
    (s : HostBuild) (o : Origin) (h : String) → IsFair Nothing s → Beaten s o h → HeldByElder s o h
Beaten-HeldByElder s o h fair beaten =
    let (b, ob, holds, at, loses) = beaten in
    let (oc, at', asks) = fair.owner h b holds in
    let same : ob ≡ oc = ground (arith, at, at') in
    (
      b,
      oc,
      holds,
      at',
      asks,
      choose_object_meta_winner-IsElder (origin_meta o) (origin_meta oc) (
          subst (λ x. choose_object_meta_winner (origin_meta o) (origin_meta x) ≡ false) same
            loses),
    )

module _ (c : Configuration)
    (rules : (i : Ingress) → In i (sorted_values c.ingresses) → HasRules i) where
  -- The objects that are still to come, and those that have a resource.
  record IngressLoop (todo : List Ingress) (s : HostBuild) : Type 0 where
    part : (i : Ingress) → In i todo → In i (sorted_values c.ingresses)
    fair : IsFair Nothing s
    alive : Alive s
    all :
        (i : Ingress)
        → In i (sorted_values c.ingresses)
        → is_minion i ≡ false
        → In i todo ⊎ Held s (from_ingress i)

  ingress_step :
      (todo : List Ingress) (ing : Ingress) (s : HostBuild)
      → IngressLoop (ing ∷ todo) s
      → (t : HostBuild) × (add_ingress c s ing ≡ some t) × IngressLoop todo t
  unfolding add_ingress
  ingress_step todo ing s p = elim (Bool-cases (is_minion ing)) [
    | inl m ↦ (
      s,
      rw m refl,
      record {
        part = λ i m. p.part i (inr m);
        fair = p.fair;
        alive = p.alive;
        all = λ i at regular. elim (p.all i at regular) [
          | inl (inl same) ↦ absurd (later i same m regular)
          | inl (inr j) ↦ inl j
          | inr held ↦ inr held
        ];
      },
    )
    | inr m ↦
        let (t, run, turned) =
          add_ingress_returns c s ing rules (rules ing (p.part ing (inl refl))) p.fair m in
        (
          t,
          run,
          record {
            part = λ i m. p.part i (inr m);
            fair = turned.fair;
            alive = turned.alive p.alive;
            all = λ i at regular. elim (p.all i at regular) [
              | inl (inl same) ↦ inr (subst (λ x. Held t (from_ingress x)) (sym same) turned.here)
              | inl (inr j) ↦ inl j
              | inr held ↦ inr (turned.kept (from_ingress i) held)
            ];
          },
        )
  ]
    where
      later : (i : Ingress) → i ≡ ing → is_minion ing ≡ true → is_minion i ≡ false → ⊥
      later i same m regular = cc

  record VirtualServerLoop (start : HostBuild) (todo : List VirtualServer) (s : HostBuild)
      : Type 0 where
    fair : IsFair Nothing s
    alive : Alive s
    kept : (o : Origin) → Held start o → Held s o
    all :
        (v : VirtualServer)
        → In v (sorted_values c.virtual_servers)
        → In v todo ⊎ Held s (from_virtual_server v)

  virtual_server_step :
      (start : HostBuild) (todo : List VirtualServer) (vs : VirtualServer) (s : HostBuild)
      → VirtualServerLoop start (vs ∷ todo) s
      → (t : HostBuild) × (add_virtual_server c s vs ≡ some t) × VirtualServerLoop start todo t
  virtual_server_step start todo vs s p =
      let (t, run, turned) = add_virtual_server_returns c s vs p.fair in
      (
        t,
        run,
        record {
          fair = turned.fair;
          alive = turned.alive p.alive;
          kept = λ o held. turned.kept o (p.kept o held);
          all = λ v at. elim (p.all v at) [
            | inl (inl same) ↦
                inr (subst (λ x. Held t (from_virtual_server x)) (sym same) turned.here)
            | inl (inr j) ↦ inl j
            | inr held ↦ inr (turned.kept (from_virtual_server v) held)
          ];
        },
      )

  pub empty-IsFair : IsFair Nothing (record { heap = []; hosts = []; resources = [] })
  unfolding origin_at lookup
  empty-IsFair = record {
    best = λ a o h at claim. absurd (ground arith);
    owner = λ h b look. absurd (ground arith);
    marks = λ a i h at. absurd (ground arith);
  }

  empty-Alive : Alive (record { heap = []; hosts = []; resources = [] })
  unfolding lookup
  empty-Alive k a look = absurd (ground arith)

  pub build_hosts_lem :
      (s : HostBuild) × (build_hosts c ≡ some s)
      × IsFair Nothing s
      × Alive s
      × ((k : String) (i : Ingress)
          → lookup k c.ingresses ≡ some i
          → is_minion i ≡ false
          → Held s (from_ingress i))
      × ((k : String) (v : VirtualServer)
          → lookup k c.virtual_servers ≡ some v
          → Held s (from_virtual_server v))
  unfolding build_hosts
  build_hosts_lem =
      let (s, run, p) =
        fold_while_inv IngressLoop (add_ingress c) ingress_step
          (record { heap = []; hosts = []; resources = [] }) (sorted_values c.ingresses)
          (record {
            part = λ i m. m;
            fair = empty-IsFair;
            alive = empty-Alive;
            all = λ i at regular. inl at;
          }) in
      let (t, run', q) =
        fold_while_inv (VirtualServerLoop s) (add_virtual_server c) (virtual_server_step s) s
          (sorted_values c.virtual_servers)
          (record {
            fair = p.fair;
            alive = p.alive;
            kept = λ o held. held;
            all = λ v at. inl at;
          }) in
      (
        t,
        rw (run, build_hosts) run',
        q.fair,
        q.alive,
        (λ k i look regular. elim (p.all i (In-sorted_values c.ingresses k i look) regular) [
          | inl z ↦ absurd z
          | inr held ↦ q.kept (from_ingress i) held
        ]),
        λ k v look. elim (q.all v (In-sorted_values c.virtual_servers k v look)) [
          | inl z ↦ absurd z
          | inr held ↦ held
        ],
      )

  -- The hosts are built if every stored Ingress has rules, and paths where it is a minion. Then every
  -- stored Ingress that is no minion and every stored VirtualServer has a resource, and the hosts are
  -- fair: each host that a resource asks for has a holder that asks for it and is older than the resource,
  -- or as old with a UID that is not smaller; and an Ingress resource marks exactly the hosts that it
  -- holds as valid.
  pub build_hosts-IsFair :
      (s : HostBuild) × (build_hosts c ≡ some s)
      × IsFair Nothing s
      × ((a : ℕ) (o : Origin) (h : String)
          → origin_at s.heap a ≡ some o
          → OriginClaims o h
          → HeldByElder s o h)
      × ((k : String) (i : Ingress)
          → lookup k c.ingresses ≡ some i
          → is_minion i ≡ false
          → Held s (from_ingress i))
      × ((k : String) (v : VirtualServer)
          → lookup k c.virtual_servers ≡ some v
          → Held s (from_virtual_server v))
  build_hosts-IsFair =
      let (s, run, fair, _, ingresses, virtual_servers) = build_hosts_lem in
      (
        s,
        run,
        fair,
        (λ a o h at asks. elim (fair.best a o h at asks) [
          | inl n ↦ absurd n
          | inr beaten ↦ Beaten-HeldByElder s o h fair beaten
        ]),
        ingresses,
        virtual_servers,
      )

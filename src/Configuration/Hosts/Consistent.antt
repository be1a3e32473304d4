-- ===== src/Configuration/Hosts/Consistent.antt =====
-- The maps that `buildHostsAndResources` returns: what the resources say of their hosts is what the
-- map of hosts says, and the map of resources has each under its key.
use kubernetes_ingress.Prelude.{
  ℕ, String, ◌≡◌, refl, sym, ap, ◌∙◌, inl, inr, true, Option, none, some, List, [], ◌∷◌, StrMap,
  lookup, arith, eqb_iff, ◌==◌, eq_iff, Bool-cases, Option-cases, In, keys, In-keys, subst,
  sorted_values, get_elem?, >>=-some,
}
use kubernetes_ingress.Api.{Ingress}
use kubernetes_ingress.Resource.{
  Resource, full_ingress, full_virtual_server, FullIngress, get_key_with_kind,
}
use kubernetes_ingress.Configuration.{Configuration}
use kubernetes_ingress.Configuration.Minions.Returns.{HasRules}
use kubernetes_ingress.Configuration.Changes.Deploy.{Claims, IsConsistent}
use kubernetes_ingress.Configuration.Hosts.{
  HostBuild, build_hosts, build_hosts_and_resources, dereference, dereference_keys,
}
use kubernetes_ingress.Configuration.Hosts.Effects.{
  Origin, from_virtual_server, origin, origin_key, origin_at, origin_at-get, marked, marked_at,
  get_key_with_kind-origin,
}
use kubernetes_ingress.Configuration.Hosts.Fairness.{OriginClaims, IsFair, is_holder}
use kubernetes_ingress.Configuration.Hosts.Build.{Nothing}
use kubernetes_ingress.Configuration.Hosts.Registry.{IsRegistered}
use kubernetes_ingress.Configuration.Hosts.Keyed.{IsKeyed, build_hosts-IsRegistered}

module _ (heap : List Resource) (m : StrMap ℕ) where
  dereference_keys-some :
      (ks : List String) (out : StrMap Resource) (k : String) (r : Resource)
      → dereference_keys heap m ks ≡ some out
      → lookup k out ≡ some r
      → (a : ℕ) × (lookup k m ≡ some a) × (get_elem? heap a ≡ some r)
  unfolding dereference_keys lookup
  dereference_keys-some [] out k r e l = absurd (ground arith)
  dereference_keys-some (x ∷ ks) out k r e l =
      let (a, la, e₁) = >>=-some (lookup x m) _ out e in
      let (r', g, e₂) = >>=-some (get_elem? heap a) _ out e₁ in
      let (rest, run, e₃) = >>=-some (dereference_keys heap m ks) _ out e₂ in
      elim (Bool-cases (x == k)) [
        | inl same ↦
            let e₄ : x ≡ k = (eq_iff x k).0 same in
            (a, ap (λ y. lookup y m) (sym e₄) ∙ la, ground arith)
        | inr other ↦ dereference_keys-some ks rest k r run (ground arith)
      ]

  In-dereference_keys :
      (ks : List String) (out : StrMap Resource) (k : String) (a : ℕ) (r : Resource)
      → dereference_keys heap m ks ≡ some out
      → In k ks
      → lookup k m ≡ some a
      → get_elem? heap a ≡ some r
      → lookup k out ≡ some r
  unfolding dereference_keys lookup
  In-dereference_keys [] out k a r e i la g = absurd i
  In-dereference_keys (x ∷ ks) out k a r e i la g =
      let (b, lb, e₁) = >>=-some (lookup x m) _ out e in
      let (r', gb, e₂) = >>=-some (get_elem? heap b) _ out e₁ in
      let (rest, run, e₃) = >>=-some (dereference_keys heap m ks) _ out e₂ in
      elim (Bool-cases (x == k)) [
        | inl same ↦
            let e₄ : lookup x m ≡ some a = ap (λ y. lookup y m) ((eq_iff x k).0 same) ∙ la in
            let e₅ : b ≡ a = ground arith in
            let e₆ : get_elem? heap b ≡ some r = ap (get_elem? heap) e₅ ∙ g in ground arith
        | inr other ↦
            let later : In k ks = elim i [
              | inl same ↦ absurd (ground (arith, eq_iff x k))
              | inr j ↦ j
            ] in
            let ih = In-dereference_keys ks rest k a r run later la g in ground arith
      ]

  pub dereference-some :
      (out : StrMap Resource) (k : String) (r : Resource)
      → dereference heap m ≡ some out
      → lookup k out ≡ some r
      → (a : ℕ) × (lookup k m ≡ some a) × (get_elem? heap a ≡ some r)
  unfolding dereference
  dereference-some out k r = dereference_keys-some (keys m) out k r

  pub some-dereference :
      (out : StrMap Resource) (k : String) (a : ℕ) (r : Resource)
      → dereference heap m ≡ some out
      → lookup k m ≡ some a
      → get_elem? heap a ≡ some r
      → lookup k out ≡ some r
  unfolding dereference
  some-dereference out k a r e la g =
      In-dereference_keys (keys m) out k a r e (In-keys k m a la) la g

is_holder-lookup : (o : Option ℕ) (a : ℕ) → is_holder o a ≡ true → o ≡ some a
is_holder-lookup none a h = cc
is_holder-lookup (some b) a h = ap some ((eqb_iff b a).0 h)

module _ (s : HostBuild) (fair : IsFair Nothing s) where
  origin_of :
      (a : ℕ) (o : Origin) (r : Resource)
      → origin_at s.heap a ≡ some o
      → get_elem? s.heap a ≡ some r
      → origin r ≡ o
  origin_of a o r at g =
      let (r', g', e) = origin_at-get s.heap a o at in
      let same : r ≡ r' = ground arith in ap origin same ∙ e

  -- A resource says that it holds a host if and only if it does.
  held-Claims :
      (h : String) (a : ℕ) (r : Resource)
      → lookup h s.hosts ≡ some a
      → get_elem? s.heap a ≡ some r
      → Claims r h
  unfolding origin marked_at marked
  held-Claims h a (full_ingress fi) look g =
      let (o, at, claim) = fair.owner h a look in
      let e = origin_of a o (full_ingress fi) at g in
      let m = fair.marks a fi.ingress h (at ∙ ap some (sym e)) in
      let held : is_holder (lookup h s.hosts) a ≡ true = rw look ((eqb_iff a a).1 refl) in
      elim (Option-cases (lookup h fi.valid_hosts)) [
        | inl n ↦ absurd (ground arith)
        | inr (b, n) ↦ ground arith
      ]
  held-Claims h a (full_virtual_server fvs) look g =
      let (o, at, claim) = fair.owner h a look in
      let e = origin_of a o (full_virtual_server fvs) at g in at_origin o e claim
    where
      at_origin :
          (o : Origin)
          → from_virtual_server fvs.virtual_server ≡ o
          → OriginClaims o h
          → h ≡ fvs.virtual_server.host
      at_origin o e claim = subst (λ o. OriginClaims o h) (sym e) claim

  ingress_holds :
      (h : String) (a : ℕ) (fi : FullIngress)
      → get_elem? s.heap a ≡ some (full_ingress fi)
      → lookup h fi.valid_hosts ≡ some true
      → lookup h s.hosts ≡ some a
  unfolding origin origin_at marked_at marked
  ingress_holds h a fi g v =
      let m = fair.marks a fi.ingress h (ground arith) in
      is_holder-lookup (lookup h s.hosts) a (ground arith)

  module _ (reg : IsRegistered s) (out : StrMap Resource)
      (run : dereference s.heap s.hosts ≡ some out) where
    hosted :
        (h h' : String) (a : ℕ) (r : Resource)
        → lookup h s.hosts ≡ some a
        → get_elem? s.heap a ≡ some r
        → Claims r h'
        → (r' : Resource) × (lookup h' out ≡ some r') × (get_key_with_kind r' ≡ get_key_with_kind r)
    hosted h h' a (full_ingress fi) look g claim = (
      full_ingress fi,
      some-dereference s.heap s.hosts out h' a (full_ingress fi) run (ingress_holds h' a fi g claim)
          g,
      refl,
    )
    hosted h h' a (full_virtual_server fvs) look g claim =
        let own : h ≡ fvs.virtual_server.host = held-Claims h a (full_virtual_server fvs) look g in
        let same : lookup h' s.hosts ≡ some a =
          ap (λ x. lookup x s.hosts) (claim ∙ sym own) ∙ look in
        (
          full_virtual_server fvs,
          some-dereference s.heap s.hosts out h' a (full_virtual_server fvs) run same g,
          refl,
        )

    registered_at :
        (a : ℕ) (o : Origin) (r : Resource)
        → origin_at s.heap a ≡ some o
        → get_elem? s.heap a ≡ some r
        → lookup (get_key_with_kind r) s.resources ≡ some a
    registered_at a o r at g =
        ap (λ k. lookup k s.resources)
          (get_key_with_kind-origin r ∙ ap origin_key (origin_of a o r at g))
        ∙ reg.entered a o at

    hosts-IsConsistent : IsConsistent out
    hosts-IsConsistent = record {
      own = λ h r l.
          let (a, look, g) = dereference-some s.heap s.hosts out h r run l in
          held-Claims h a r look g;
      hosted = λ h h' r l claim.
          let (a, look, g) = dereference-some s.heap s.hosts out h r run l in
          hosted h h' a r look g claim;
      unique = λ h h' r r' l l' e.
          let (a, look, g) = dereference-some s.heap s.hosts out h r run l in
          let (b, look', g') = dereference-some s.heap s.hosts out h' r' run l' in
          let (o, at, _) = fair.owner h a look in
          let (o', at', _) = fair.owner h' b look' in
          let at_a = registered_at a o r at g in
          let at_b = registered_at b o' r' at' g' in
          let at_b' : lookup (get_key_with_kind r) s.resources ≡ some b =
            ap (λ k. lookup k s.resources) e ∙ at_b in
          let same : a ≡ b = ground arith in
          let g₂ : get_elem? s.heap b ≡ some r = ap (get_elem? s.heap) (sym same) ∙ g in
          ground arith;
    }

-- Each resource of the map is under its key with kind.
abbrev pub AtOwnKey : StrMap Resource → Type 0
AtOwnKey resources =
    (k : String) (r : Resource) → lookup k resources ≡ some r → get_key_with_kind r ≡ k

module _ (c : Configuration) (rules : (i : Ingress) → In i (sorted_values c.ingresses) → HasRules i)
    (keyed : IsKeyed c) where
  -- Of Ingresses and VirtualServers that are stored under their own keys, and Ingresses that have
  -- rules, and paths where they are minions: whatever hosts and resources are built, the hosts are
  -- consistent, and the resources are under their keys.
  pub build_hosts_and_resources-IsConsistent :
      (built : StrMap Resource × StrMap Resource)
      → build_hosts_and_resources c ≡ some built
      → IsConsistent built.0 × AtOwnKey built.1
  unfolding build_hosts_and_resources
  build_hosts_and_resources-IsConsistent built e =
      let (s, run, fair, reg) = build_hosts-IsRegistered c rules keyed in
      let (s', run', e₁) = >>=-some (build_hosts c) _ built e in
      let same : s' ≡ s = ground arith in
      let (hosts, eh, e₂) = >>=-some (dereference s'.heap s'.hosts) _ built e₁ in
      let (resources, er, e₃) = >>=-some (dereference s'.heap s'.resources) _ built e₂ in
      let eh' : dereference s.heap s.hosts ≡ some built.0 =
        ap (λ x. dereference x.heap x.hosts) (sym same) ∙ ground arith in
      let er' : dereference s.heap s.resources ≡ some built.1 =
        ap (λ x. dereference x.heap x.resources) (sym same) ∙ ground arith in
      (
        hosts-IsConsistent s fair reg built.0 eh',
        λ k r l.
            let (a, look, g) = dereference-some s.heap s.resources built.1 k r er' l in
            let (o, at, key) = reg.entry k a look in
            get_key_with_kind-origin r ∙ (ap origin_key (origin_of s fair a o r at g) ∙ key),
      )

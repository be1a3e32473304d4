-- ===== src/Configuration/Hosts/Steps.antt =====
-- One turn of either loop of `buildHostsAndResources`: it returns, the object gets a resource, and the
-- hosts stay fair.
use kubernetes_ingress.Prelude.{
  eq_iff, ◌≢◌, sym, none, ℕ, String, ◌≡◌, refl, ap, ◌∙◌, inl, inr, false, some, lookup, ◌==◌, arith,
  length, Bool-cases, In, subst, sorted_values,
}
use kubernetes_ingress.Api.{Ingress, VirtualServer, is_minion, is_master}
use kubernetes_ingress.Resource.{
  Resource, full_ingress, full_virtual_server, new_master_full_ingress, new_regular_full_ingress,
  new_full_virtual_server,
}
use kubernetes_ingress.Configuration.{Configuration}
use kubernetes_ingress.Configuration.Minions.Returns.{HasRules, build_full_minions_returns}
use kubernetes_ingress.Configuration.Hosts.{
  HostBuild, allocate, new_full_ingress, add_ingress, add_virtual_server,
  build_virtual_server_routes,
}
use kubernetes_ingress.Configuration.Hosts.Effects.{
  Origin, from_ingress, from_virtual_server, origin, origin_key, origin_at, origin_at-bound, marked,
}
use kubernetes_ingress.Configuration.Hosts.Fairness.{OriginClaims, IsFair}
use kubernetes_ingress.Configuration.Hosts.Claims.{Frame, virtual_server-Turn}
use kubernetes_ingress.Configuration.Hosts.Registry.{
  IsRegistered, Frame-IsRegistered, allocate-IsRegistered, allocate-origin, allocate-origins,
  allocate-resources, allocate-IsFair,
}
use kubernetes_ingress.Configuration.Hosts.Build.{Nothing, RulesLeft, claim_rules}

-- The object has a resource.
abbrev pub Held : HostBuild → Origin → Type 0
Held s o = (a : ℕ) × (origin_at s.heap a ≡ some o)

-- The pointers of `newResources` do not dangle.
abbrev pub Alive : HostBuild → Type 0
Alive s =
    (k : String) (a : ℕ)
    → lookup k s.resources ≡ some a
    → (o : Origin) × (origin_at s.heap a ≡ some o)

allocate-Alive : (r : Resource) (s : HostBuild) → Alive s → Alive (allocate r s)
allocate-Alive r s alive k a look = elim (Bool-cases (origin_key (origin r) == k)) [
  | inl e ↦ (origin r, ground (arith, allocate-origins r s a, allocate-resources r s k))
  | inr e ↦
      let (o, at) = alive k a (ground (arith, allocate-resources r s k)) in
      (o, ground (arith, allocate-origins r s a, origin_at-bound s.heap a o at))
]

Frame-Alive : (s t : HostBuild) → Frame s t → Alive s → Alive t
Frame-Alive s t f alive k a look =
    let (o, at) = alive k a (rw f.resources_eq at look) in (o, f.origins_eq a ∙ at)

-- What a turn for one object leads to.
pub record Turned (o : Origin) (s t : HostBuild) : Type 0 where
  pub fair : IsFair Nothing t
  pub here : Held t o
  pub kept : (o' : Origin) → Held s o' → Held t o'
  pub alive : Alive s → Alive t
  pub registered : lookup (origin_key o) s.resources ≡ none → IsRegistered s → IsRegistered t
  pub others : (k : String) → origin_key o ≢ k → lookup k t.resources ≡ lookup k s.resources

allocate-others :
    (r : Resource) (s : HostBuild) (k : String)
    → origin_key (origin r) ≢ k
    → lookup k (allocate r s).resources ≡ lookup k s.resources
allocate-others r s k other = elim (Bool-cases (origin_key (origin r) == k)) [
  | inl e ↦ absurd (other ((eq_iff (origin_key (origin r)) k).0 e))
  | inr e ↦ allocate-resources r s k ∙ rw e refl
]

allocate-Turned :
    (r : Resource) (o : Origin) (s t : HostBuild)
    → origin r ≡ o
    → Frame (allocate r s) t
    → IsFair Nothing t
    → Turned o s t
allocate-Turned r o s t same frame fair = record {
  fair = fair;
  here = (length s.heap, frame.origins_eq (length s.heap) ∙ (allocate-origin r s ∙ ap some same));
  kept = λ o' held.
      let (a, at) = held in
      (
        a,
        frame.origins_eq a ∙ ground (arith, allocate-origins r s a, origin_at-bound s.heap a o' at),
      );
  alive = λ alive. Frame-Alive (allocate r s) t frame (allocate-Alive r s alive);
  registered = λ free reg.
      Frame-IsRegistered (allocate r s) t frame
        (allocate-IsRegistered r s (ap (λ x. lookup (origin_key x) s.resources) same ∙ free) reg);
  others = λ k other.
      ap (lookup k) frame.resources_eq
      ∙ allocate-others r s k (λ e. other (ap origin_key (sym same) ∙ e));
}

-- A resource for an Ingress, with no host yet.
record IsNew (r : Resource) (o : Origin) : Type 0 where
  of : origin r ≡ o
  unmarked : (h : String) → marked r h ≡ false

new_full_ingress_returns :
    (c : Configuration) (ing : Ingress)
    → ((i : Ingress) → In i (sorted_values c.ingresses) → HasRules i)
    → HasRules ing
    → (r : Resource) × (new_full_ingress c ing ≡ some r) × IsNew r (from_ingress ing)
unfolding new_full_ingress origin marked lookup
new_full_ingress_returns c ing rules own = elim (Bool-cases (is_master ing)) [
  | inr m ↦ (
    full_ingress (new_regular_full_ingress ing),
    rw (m, new_full_ingress) refl,
    record { of = refl; unmarked = λ h. refl },
  )
  | inl m ↦
      let (host, eh) = own.host in
      let (built, eb) = build_full_minions_returns c host rules in
      (
        full_ingress (new_master_full_ingress ing built.0 built.1),
        rw (m, new_full_ingress) (rw eh (rw eb refl)),
        record { of = refl; unmarked = λ h. refl },
      )
]

pub add_ingress_returns :
    (c : Configuration) (s : HostBuild) (ing : Ingress)
    → ((i : Ingress) → In i (sorted_values c.ingresses) → HasRules i)
    → HasRules ing
    → IsFair Nothing s
    → is_minion ing ≡ false
    → (t : HostBuild) × (add_ingress c s ing ≡ some t) × Turned (from_ingress ing) s t
unfolding add_ingress
add_ingress_returns c s ing rules own fair regular =
    let (r, made, new) = new_full_ingress_returns c ing rules own in
    let a = length s.heap in
    let (t, run, fair_t, frame) =
      claim_rules a ing (allocate r s) (allocate-origin r s ∙ ap some new.of) (
        allocate-IsFair r s (RulesLeft a ing.rules) new.unmarked
          (λ h c. (refl, subst (λ o. OriginClaims o h) new.of c)) fair) in
    (
      t,
      rw (regular, add_ingress) (rw made run),
      allocate-Turned r (from_ingress ing) s t new.of frame fair_t,
    )

pub add_virtual_server_returns :
    (c : Configuration) (s : HostBuild) (vs : VirtualServer)
    → IsFair Nothing s
    → (t : HostBuild) × (add_virtual_server c s vs ≡ some t) × Turned (from_virtual_server vs) s t
unfolding add_virtual_server origin marked new_full_virtual_server
add_virtual_server_returns c s vs fair =
    let built = build_virtual_server_routes c vs vs.routes in
    let r = full_virtual_server (new_full_virtual_server vs built.0 built.1) in
    let a = length s.heap in
    let P : ℕ → String → Type 0 = λ b h. (b ≡ a) × (h ≡ vs.host) in
    let (t, run, fair_t, frame) =
      virtual_server-Turn P Nothing a (from_virtual_server vs) (allocate r s)
        (allocate-IsFair r s P (λ h. refl) (λ h e. (refl, e)) fair) (allocate-origin r s) vs.host
        refl (λ b h p. inr p) in
    (t, run, allocate-Turned r (from_virtual_server vs) s t refl frame fair_t)

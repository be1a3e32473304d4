-- ===== src/Configuration/Hosts/Claims.antt =====
-- The turns of both loops return, and keep the invariant.
use kubernetes_ingress.Prelude.{
  ℕ, String, ◌≡◌, refl, sym, ◌∙◌, inl, inr, not, Option, none, some, lookup, arith, Bool-cases,
  Option-cases, get_elem?, if◌then◌else◌,
}
use kubernetes_ingress.Api.{IngressRule}
use kubernetes_ingress.Resource.{
  Resource, release_host, add_warning, wins, choose_object_meta_winner,
}
use kubernetes_ingress.Configuration.Hosts.{
  HostBuild, give_host, call, claim_ingress_host, claim_virtual_server_host, taken_warning,
}
use kubernetes_ingress.Configuration.Hosts.Effects.{
  Origin, origin_meta, origin_at, origin_at-get, wins-origin,
}
use kubernetes_ingress.Configuration.Hosts.Fairness.{
  OriginClaims, IsFair, Gives, Keeps, Settles, give-Gives, steal_ingress-Gives,
  steal_virtual_server-Gives, warn-Keeps,
}
use kubernetes_ingress.Configuration.Hosts.Turns.{Gives-IsFair, Keeps-IsFair}

-- What a turn leaves alone.
pub record Frame (s t : HostBuild) : Type 0 where
  pub resources_eq : t.resources ≡ s.resources
  pub origins_eq : (b : ℕ) → origin_at t.heap b ≡ origin_at s.heap b

Gives-Frame :
    (a : ℕ) (oa : Origin) (host : String) (s t : HostBuild) → Gives a oa host s t → Frame s t
Gives-Frame a oa host s t g = record { resources_eq = g.resources_eq; origins_eq = g.origins_eq }

Keeps-Frame : (s t : HostBuild) → Keeps s t → Frame s t
Keeps-Frame s t k = record { resources_eq = k.resources_eq; origins_eq = k.origins_eq }

ingress_free :
    (a : ℕ) (s : HostBuild) (rule : IngressRule)
    → lookup rule.host s.hosts ≡ none
    → claim_ingress_host a s rule ≡ some (give_host a rule.host s)
unfolding claim_ingress_host
ingress_free a s rule n = rw (n, claim_ingress_host)

ingress_held :
    (a c : ℕ) (s : HostBuild) (rule : IngressRule) (holder resource : Resource)
    → lookup rule.host s.hosts ≡ some c
    → get_elem? s.heap c ≡ some holder
    → get_elem? s.heap a ≡ some resource
    → claim_ingress_host a s rule ≡ (
        if not (wins holder resource)
        then some (
            give_host a rule.host
              (call c (add_warning (taken_warning rule.host)) (call c (release_host rule.host) s)))
        else some (call a (add_warning (taken_warning rule.host)) s))
unfolding claim_ingress_host
ingress_held a c s rule holder resource n g h = rw (n, claim_ingress_host) (rw g (rw h refl))

virtual_server_free :
    (a : ℕ) (s : HostBuild) (host : String)
    → lookup host s.hosts ≡ none
    → claim_virtual_server_host a s host ≡ some (give_host a host s)
unfolding claim_virtual_server_host
virtual_server_free a s host n = rw (n, claim_virtual_server_host)

virtual_server_held :
    (a c : ℕ) (s : HostBuild) (host : String) (holder resource : Resource)
    → lookup host s.hosts ≡ some c
    → get_elem? s.heap c ≡ some holder
    → get_elem? s.heap a ≡ some resource
    → claim_virtual_server_host a s host ≡ (
        if not (wins holder resource)
        then some (
            call c
              (add_warning (taken_warning host))
              (give_host a host (call c (release_host host) s)))
        else some (call a (add_warning (taken_warning host)) s))
unfolding claim_virtual_server_host
virtual_server_held a c s host holder resource n g h =
    rw (n, claim_virtual_server_host) (rw g (rw h refl))

-- A turn returns a state that is fair for what is still pending.
abbrev pub Turn : (ℕ → String → Type 0) → HostBuild → Option HostBuild → Type 0
Turn Q s r = (t : HostBuild) × (r ≡ some t) × IsFair Q t × Frame s t

module _ (P Q : ℕ → String → Type 0) (a : ℕ) (oa : Origin) (s : HostBuild) (fair : IsFair P s)
    (at : origin_at s.heap a ≡ some oa) where
  -- The two turns differ only in the state that a won host leads to.
  Turn-cases :
      (host : String) (r : Option HostBuild) (stolen : ℕ → HostBuild)
      → OriginClaims oa host
      → Settles P Q a host
      → (lookup host s.hosts ≡ none → r ≡ some (give_host a host s))
      → ((c : ℕ) (holder resource : Resource)
          → lookup host s.hosts ≡ some c
          → get_elem? s.heap c ≡ some holder
          → get_elem? s.heap a ≡ some resource
          → r ≡ (
              if not (wins holder resource)
              then some (stolen c)
              else some (call a (add_warning (taken_warning host)) s)))
      → ((c : ℕ) → lookup host s.hosts ≡ some c → Gives a oa host s (stolen c))
      → Turn Q s r
  Turn-cases host r stolen claim settles free held gives =
      elim (Option-cases (lookup host s.hosts)) [
        | inl n ↦
            let g = give-Gives a oa host s at n in
            (
              give_host a host s,
              free n,
              Gives-IsFair P Q a oa host s fair claim settles (give_host a host s) g
                  (λ c oc look. absurd (ground arith)),
              Gives-Frame a oa host s (give_host a host s) g,
            )
        | inr (c, look) ↦
            let (oc, atc, _) = fair.owner host c look in
            let (holder, gc, ec) = origin_at-get s.heap c oc atc in
            let (resource, ga, ea) = origin_at-get s.heap a oa at in
            let same : wins holder resource
                ≡ choose_object_meta_winner (origin_meta oc) (origin_meta oa) =
              rw (← ec, ← ea) (wins-origin holder resource) in
            elim (Bool-cases (wins holder resource)) [
              | inl w ↦
                  let k = warn-Keeps a oa host s at (taken_warning host) in
                  (
                    call a (add_warning (taken_warning host)) s,
                    held c holder resource look gc ga ∙ rw w,
                    Keeps-IsFair P Q a oa host s fair claim settles
                        (call a (add_warning (taken_warning host)) s) c oc k at look atc
                        (sym same ∙ w),
                    Keeps-Frame s (call a (add_warning (taken_warning host)) s) k,
                  )
              | inr w ↦ (
                stolen c,
                held c holder resource look gc ga ∙ rw w,
                Gives-IsFair P Q a oa host s fair claim settles (stolen c) (gives c look)
                    (λ c' oc' look' atc'. ground arith),
                Gives-Frame a oa host s (stolen c) (gives c look),
              )
            ]
      ]

  pub ingress-Turn :
      (rule : IngressRule)
      → OriginClaims oa rule.host
      → Settles P Q a rule.host
      → Turn Q s (claim_ingress_host a s rule)
  ingress-Turn rule claim settles =
      Turn-cases rule.host (claim_ingress_host a s rule)
        (λ c.
          give_host a rule.host
            (call c (add_warning (taken_warning rule.host)) (call c (release_host rule.host) s)))
        claim settles (ingress_free a s rule) (λ c. ingress_held a c s rule)
        (λ c look. steal_ingress-Gives a oa rule.host s at c (taken_warning rule.host) look)

  pub virtual_server-Turn :
      (host : String)
      → OriginClaims oa host
      → Settles P Q a host
      → Turn Q s (claim_virtual_server_host a s host)
  virtual_server-Turn host claim settles =
      Turn-cases host (claim_virtual_server_host a s host)
        (λ c.
          call c (add_warning (taken_warning host))
            (give_host a host (call c (release_host host) s)))
        claim settles (virtual_server_free a s host) (λ c. virtual_server_held a c s host)
        (λ c look. steal_virtual_server-Gives a oa host s at c (taken_warning host) look)

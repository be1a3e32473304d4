-- ===== src/Configuration/Hosts/Fairness.antt =====
-- The invariant of the loops that give out hosts: every host is held by a claimant that no claimant
-- so far beats, the marks of the Ingresses agree with the map of hosts, and no pointer dangles.
use kubernetes_ingress.Prelude.{
  ℕ, String, ◌≡◌, refl, ◌∙◌, ◌⊎◌, Bool, true, false, ◌&&◌, Option, none, some, List, lookup, insert,
  arith, ◌==◌, eqb, if◌then◌else◌, update, In,
}
use kubernetes_ingress.Api.{Ingress, IngressRule}
use kubernetes_ingress.Resource.{
  Resource, acquire_host, release_host, add_warning, choose_object_meta_winner,
}
use kubernetes_ingress.Configuration.Hosts.{HostBuild, give_host, call}
use kubernetes_ingress.Configuration.Hosts.Effects.{
  Origin, from_ingress, from_virtual_server, origin_meta, is_ingress, origin_at, marked_at,
  origin_at-acquire, origin_at-release, origin_at-warn, marked_at-acquire, marked_at-release,
  marked_at-warn,
}

-- The hosts that an object asks for.
abbrev pub OriginClaims : Origin → String → Type 0
OriginClaims (from_ingress i) h = (r : IngressRule) × In r i.rules × (r.host ≡ h)
OriginClaims (from_virtual_server v) h = h ≡ v.host

abbrev pub is_holder : Option ℕ → ℕ → Bool
is_holder none a = false
is_holder (some b) a = eqb b a

-- The host has a holder that the object does not beat.
abbrev pub Beaten : HostBuild → Origin → String → Type 0
Beaten s o h =
    (b : ℕ) × (ob : Origin) × (lookup h s.hosts ≡ some b)
    × (origin_at s.heap b ≡ some ob)
    × (choose_object_meta_winner (origin_meta o) (origin_meta ob) ≡ false)

-- `Pending a h`: the resource at `a` has still to claim `h`.
pub record IsFair (Pending : ℕ → String → Type 0) (s : HostBuild) : Type 0 where
  pub best :
      (a : ℕ) (o : Origin) (h : String)
      → origin_at s.heap a ≡ some o
      → OriginClaims o h
      → Pending a h ⊎ Beaten s o h
  pub owner :
      (h : String) (b : ℕ)
      → lookup h s.hosts ≡ some b
      → (o : Origin) × (origin_at s.heap b ≡ some o) × OriginClaims o h
  pub marks :
      (a : ℕ) (i : Ingress) (h : String)
      → origin_at s.heap a ≡ some (from_ingress i)
      → marked_at s.heap a h ≡ is_holder (lookup h s.hosts) a

-- Nothing but marks changed; they are as the map of hosts says at `host`.
pub record Gives (a : ℕ) (oa : Origin) (host : String) (s t : HostBuild) : Type 0 where
  pub at : origin_at s.heap a ≡ some oa
  pub hosts_eq : t.hosts ≡ insert host a s.hosts
  pub resources_eq : t.resources ≡ s.resources
  pub origins_eq : (b : ℕ) → origin_at t.heap b ≡ origin_at s.heap b
  pub marks_eq :
      (b : ℕ) (h : String)
      → marked_at t.heap b h ≡ (
          if eqb a b && (is_ingress oa && host == h)
          then true
          else if is_holder (lookup host s.hosts) b && host == h
          then false
          else marked_at s.heap b h)

pub record Keeps (s t : HostBuild) : Type 0 where
  pub hosts_eq : t.hosts ≡ s.hosts
  pub resources_eq : t.resources ≡ s.resources
  pub origins_eq : (b : ℕ) → origin_at t.heap b ≡ origin_at s.heap b
  pub marks_eq : (b : ℕ) (h : String) → marked_at t.heap b h ≡ marked_at s.heap b h

module _ (a : ℕ) (oa : Origin) (host : String) (s : HostBuild)
    (at : origin_at s.heap a ≡ some oa) where
  -- A host that nobody holds.
  pub give-Gives : lookup host s.hosts ≡ none → Gives a oa host s (give_host a host s)
  unfolding give_host
  give-Gives free = record {
    at = at;
    hosts_eq = refl;
    resources_eq = refl;
    origins_eq = λ b. origin_at-acquire s.heap a b host;
    marks_eq = λ b h. ground (arith, marked_at-acquire s.heap a b host h oa at);
  }

  -- A host that is taken from its holder at `c`, in the order of the Ingress loop …
  pub steal_ingress-Gives :
      (c : ℕ) (w : String)
      → lookup host s.hosts ≡ some c
      → Gives a oa host s (give_host a host (call c (add_warning w) (call c (release_host host) s)))
  unfolding give_host call
  steal_ingress-Gives c w held = record {
    at = at;
    hosts_eq = refl;
    resources_eq = refl;
    origins_eq = λ b.
        origin_at-acquire (update c (add_warning w) released) a b host
        ∙ (origin_at-warn released c b w ∙ origin_at-release s.heap c b host);
    marks_eq = λ b h. ground (
      arith,
      marked_at-acquire (update c (add_warning w) released) a b host h oa
          (origin_at-warn released c a w ∙ (origin_at-release s.heap c a host ∙ at)),
      marked_at-warn released c b w h,
      marked_at-release s.heap c b host h,
    );
  }
    where
      released : List Resource
      released = update c (release_host host) s.heap

  -- … and in the order of the VirtualServer loop.
  pub steal_virtual_server-Gives :
      (c : ℕ) (w : String)
      → lookup host s.hosts ≡ some c
      → Gives a oa host s (call c (add_warning w) (give_host a host (call c (release_host host) s)))
  unfolding give_host call
  steal_virtual_server-Gives c w held = record {
    at = at;
    hosts_eq = refl;
    resources_eq = refl;
    origins_eq = λ b.
        origin_at-warn (update a (acquire_host host) released) c b w
        ∙ (origin_at-acquire released a b host ∙ origin_at-release s.heap c b host);
    marks_eq = λ b h. ground (
      arith,
      marked_at-warn (update a (acquire_host host) released) c b w h,
      marked_at-acquire released a b host h oa (origin_at-release s.heap c a host ∙ at),
      marked_at-release s.heap c b host h,
    );
  }
    where
      released : List Resource
      released = update c (release_host host) s.heap

  pub warn-Keeps : (w : String) → Keeps s (call a (add_warning w) s)
  unfolding call
  warn-Keeps w = record {
    hosts_eq = refl;
    resources_eq = refl;
    origins_eq = λ b. origin_at-warn s.heap a b w;
    marks_eq = λ b h. marked_at-warn s.heap a b w h;
  }

-- What a turn for `host` leaves pending.
abbrev pub Settles : (ℕ → String → Type 0) → (ℕ → String → Type 0) → ℕ → String → Type 0
Settles P Q a host = (b : ℕ) (h : String) → P b h → Q b h ⊎ ((b ≡ a) × (h ≡ host))

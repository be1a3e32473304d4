-- ===== src/Configuration/Hosts/Build.antt =====
-- The loop over the rules of one Ingress returns, and is fair.
use kubernetes_ingress.Prelude.{
  ℕ, String, ◌≡◌, refl, sym, ap, ◌∙◌, inl, inr, some, List, [], ◌∷◌, In, fold_while, fold_while_inv,
}
use kubernetes_ingress.Api.{Ingress, IngressRule}
use kubernetes_ingress.Configuration.Hosts.{HostBuild, claim_ingress_host}
use kubernetes_ingress.Configuration.Hosts.Effects.{from_ingress, origin_at}
use kubernetes_ingress.Configuration.Hosts.Fairness.{IsFair, Settles}
use kubernetes_ingress.Configuration.Hosts.Claims.{Frame, ingress-Turn}

abbrev pub Nothing : ℕ → String → Type 0
Nothing a h = ⊥

-- The hosts of the rules that the resource at `a` has not claimed.
abbrev pub RulesLeft : ℕ → List IngressRule → ℕ → String → Type 0
RulesLeft a todo b h = (b ≡ a) × ((r : IngressRule) × In r todo × (r.host ≡ h))

IsFair-imp :
    (P Q : ℕ → String → Type 0) (s : HostBuild)
    → ((a : ℕ) (h : String) → P a h → Q a h)
    → IsFair P s
    → IsFair Q s
IsFair-imp P Q s f fair = record {
  best = λ a o h at c. elim (fair.best a o h at c) [ inl p ↦ inl (f a h p) | inr b ↦ inr b ];
  owner = fair.owner;
  marks = fair.marks;
}

Frame-trans : (s t u : HostBuild) → Frame s t → Frame t u → Frame s u
Frame-trans s t u f g = record {
  resources_eq = g.resources_eq ∙ f.resources_eq;
  origins_eq = λ b. g.origins_eq b ∙ f.origins_eq b;
}

Frame-refl : (s : HostBuild) → Frame s s
Frame-refl s = record { resources_eq = refl; origins_eq = λ b. refl }

rule-Settles :
    (a : ℕ) (r : IngressRule) (todo : List IngressRule)
    → Settles (RulesLeft a (r ∷ todo)) (RulesLeft a todo) a r.host
rule-Settles a r todo b h (same, (r', inl e, host)) = inr (same, sym host ∙ ap (λ x. x.host) e)
rule-Settles a r todo b h (same, (r', inr i, host)) = inl (same, (r', i, host))

module _ (a : ℕ) (i : Ingress) (s : HostBuild)
    (at : origin_at s.heap a ≡ some (from_ingress i)) where
  record Rules (todo : List IngressRule) (t : HostBuild) : Type 0 where
    part : (r : IngressRule) → In r todo → In r i.rules
    fair : IsFair (RulesLeft a todo) t
    frame : Frame s t

  Rules-turn :
      (todo : List IngressRule) (r : IngressRule) (t : HostBuild)
      → Rules (r ∷ todo) t
      → (u : HostBuild) × (claim_ingress_host a t r ≡ some u) × Rules todo u
  Rules-turn todo r t p =
      let (u, e, fair, frame) =
        ingress-Turn (RulesLeft a (r ∷ todo)) (RulesLeft a todo) a (from_ingress i) t p.fair
          (p.frame.origins_eq a ∙ at) r (r, p.part r (inl refl), refl) (rule-Settles a r todo) in
      (
        u,
        e,
        record {
          part = λ r' m. p.part r' (inr m);
          fair = fair;
          frame = Frame-trans s t u p.frame frame;
        },
      )

  -- The loop over the rules of an Ingress.
  pub claim_rules :
      IsFair (RulesLeft a i.rules) s
      → (t : HostBuild) × (fold_while (claim_ingress_host a) s i.rules ≡ some t)
        × IsFair Nothing t
        × Frame s t
  claim_rules fair =
      let (t, e, p) =
        fold_while_inv Rules (claim_ingress_host a) Rules-turn s i.rules
          (record { part = λ r m. m; fair = fair; frame = Frame-refl s }) in
      (t, e, IsFair-imp (RulesLeft a []) Nothing t (λ b h z. z.1.1) p.fair, p.frame)

-- ===== src/Validation/Hosts.antt =====
-- The hosts of an Ingress that `validateIngressSpec` accepts.
use kubernetes_ingress.Prelude.{
  ℕ, suc, String, ◌≡◌, ◌≢◌, refl, ap, inl, inr, false, List, [], ◌∷◌, map, any, arith, In, Distinct,
  ◌==◌, eq_iff, Bool-cases,
}
use kubernetes_ingress.Api.{Ingress, IngressRule}
use kubernetes_ingress.Validation.{validate_rules, validate_ingress_spec}
use kubernetes_ingress.Validation.Errors.{FieldPath}

any-In : (h : String) (hosts : List String) → any (λ h'. h' == h) hosts ≡ false → ¬ (In h hosts)
any-In h [] e i = i
any-In h (x ∷ hosts) e (inl same) = ground (arith, eq_iff x h)
any-In h (x ∷ hosts) e (inr i) = any-In h hosts (ground arith) i

-- Hosts that are new to the ones seen, and differ from one another.
abbrev Fresh : List String → List IngressRule → Type 0
Fresh seen [] = Unit
Fresh seen (r ∷ rules) = (r.host ≢ "") × ¬ (In r.host seen) × Fresh (r.host ∷ seen) rules

validate_rules-Fresh :
    (path : FieldPath) (i : ℕ) (seen : List String) (rules : List IngressRule)
    → validate_rules path i seen rules ≡ []
    → Fresh seen rules
unfolding validate_rules
validate_rules-Fresh path i seen [] h = tt
validate_rules-Fresh path i seen (r ∷ rules) h = elim (Bool-cases (r.host == "")) [
  | inl e ↦ absurd (ground arith)
  | inr e ↦ elim (Bool-cases (any (λ h'. h' == r.host) seen)) [
    | inl k ↦ absurd (ground arith)
    | inr k ↦ (
      (λ z. ground (arith, eq_iff r.host "")),
      any-In r.host seen k,
      validate_rules-Fresh path (suc i) (r.host ∷ seen) rules (ground arith),
    )
  ]
]

Fresh-In :
    (seen : List String) (rules : List IngressRule) (h : String)
    → Fresh seen rules
    → In h seen
    → ¬ (In h (map (λ r. r.host) rules))
Fresh-In seen [] h f i j = j
Fresh-In seen (r ∷ rules) h f i (inl e) = f.1 (rw (← e) i)
Fresh-In seen (r ∷ rules) h f i (inr j) = Fresh-In (r.host ∷ seen) rules h f.2 (inr i) j

Fresh-Distinct :
    (seen : List String) (rules : List IngressRule)
    → Fresh seen rules
    → Distinct (map (λ r. r.host) rules) × ((r : IngressRule) → In r rules → r.host ≢ "")
Fresh-Distinct seen [] f = (tt, λ r i. absurd i)
Fresh-Distinct seen (r ∷ rules) f =
    let (d, g) = Fresh-Distinct (r.host ∷ seen) rules f.2 in
    (
      (Fresh-In (r.host ∷ seen) rules r.host f.2 (inl refl), d),
      λ r' i. elim i [ inl e ↦ rw (ap (λ x. x.host) e) f.0 | inr j ↦ g r' j ],
    )

-- An Ingress whose spec has no error has a rule; none of its hosts is empty or listed twice.
pub validate_ingress_spec_sound :
    (ing : Ingress) (path : FieldPath)
    → validate_ingress_spec ing path ≡ []
    → (ing.rules ≢ [])
      × Distinct (map (λ r. r.host) ing.rules)
      × ((r : IngressRule) → In r ing.rules → r.host ≢ "")
unfolding validate_ingress_spec
validate_ingress_spec_sound ing path h = at_rules ing.rules refl
  where
    at_rules :
        (rules : List IngressRule)
        → ing.rules ≡ rules
        → (ing.rules ≢ [])
          × Distinct (map (λ r. r.host) ing.rules)
          × ((r : IngressRule) → In r ing.rules → r.host ≢ "")
    at_rules [] e = absurd (ground arith)
    at_rules (r ∷ rules) e =
        let (distinct, nonempty) =
          Fresh-Distinct [] (r ∷ rules)
            (validate_rules-Fresh path 0 [] (r ∷ rules) (ground arith)) in
        (cc, rw e distinct, rw e nonempty)

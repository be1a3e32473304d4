-- ===== src/Validation/Accepted.antt =====
-- What the code may read of an Ingress that `validateIngress` accepts: the first rule, and of a
-- minion the paths of that rule.
use mathlib.Core.List.{◌++◌}
use kubernetes_ingress.Prelude.{
  String, ◌≡◌, refl, ap, inl, inr, Bool, true, false, some, List, [], ◌∷◌, arith, ◌==◌, eq_iff,
  Option-cases,
}
use kubernetes_ingress.Api.{
  Ingress, IngressRule, is_minion, is_master, has_mergeable_type, annotation,
  mergeable_ingress_type_annotation,
}
use kubernetes_ingress.Validation.{validate_ingress, validate_ingress_spec, validate_minion_spec}
use kubernetes_ingress.Validation.Errors.{new_path}
use kubernetes_ingress.Validation.Annotations.{validate_ingress_annotations}
use kubernetes_ingress.Validation.Hosts.{validate_ingress_spec_sound}
use kubernetes_ingress.Validation.Minion.{validate_minion_spec_sound}
use kubernetes_ingress.Configuration.Minions.{first_host, first_paths}
use kubernetes_ingress.Configuration.Minions.Returns.{HasRules}

append_nil : {A : Type 0} (xs ys : List A) → xs ++ ys ≡ [] → (xs ≡ []) × (ys ≡ [])
append_nil [] ys h = (refl, h)
append_nil (x ∷ xs) ys h = absurd (ground arith)

is_minion-is_master : (ing : Ingress) → is_minion ing ≡ true → is_master ing ≡ false
unfolding is_minion is_master has_mergeable_type
is_minion-is_master ing h =
    elim (Option-cases (annotation ing.meta mergeable_ingress_type_annotation)) [
      | inl e ↦ absurd (ground arith)
      | inr (v, e) ↦
          let same : v ≡ "minion" = ground (arith, eq_iff v "minion") in
          let other : (v == "master") ≡ false = ap (λ x. x == "master") same in ground arith
    ]

rules-first_host :
    (ing : Ingress) (rules : List IngressRule)
    → ing.rules ≡ rules
    → ¬ (ing.rules ≡ [])
    → (h : String) × (first_host ing ≡ some h)
unfolding first_host
rules-first_host ing [] e n = absurd (n e)
rules-first_host ing (r ∷ rules) e n = (r.host, ground arith)

-- An Ingress that the validation accepts has a rule, and a minion has paths.
pub validate_ingress-HasRules :
    (ing : Ingress) (is_plus : Bool) → validate_ingress ing is_plus ≡ [] → HasRules ing
unfolding validate_ingress first_paths
validate_ingress-HasRules ing is_plus h =
    let (_, h₁) =
      append_nil
        (validate_ingress_annotations ing.meta.annotations is_plus (new_path "annotations")) _ h in
    let (spec, kind) = append_nil (validate_ingress_spec ing (new_path "spec")) _ h₁ in
    let (nonempty, _, _) = validate_ingress_spec_sound ing (new_path "spec") spec in
    record {
      host = rules-first_host ing ing.rules refl nonempty;
      paths = λ m.
          let minion : validate_minion_spec ing (new_path "spec") ≡ [] =
            ground (arith, is_minion-is_master ing) in
          let (_, (r, ps, er, eh, _)) = validate_minion_spec_sound ing (new_path "spec") minion in
          (ps, ground arith);
    }

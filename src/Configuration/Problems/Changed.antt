-- ===== src/Configuration/Problems/Changed.antt =====
-- What `detectChangesInProblems` reports.
use kubernetes_ingress.Prelude.{
  String, ◌≡◌, ◌≢◌, eq_iff, ◌⊎◌, ◌↔◌, refl, sym, ap, ◌∙◌, inl, inr, Bool, true, false, Option, none,
  some, List, [], ◌∷◌, arith, In, if◌then◌else◌, lookup, Bool-cases, Option-cases, subst,
  In-sorted_keys, get_sorted_keys,
}
use kubernetes_ingress.Configuration.{ConfigurationProblem, compare_configuration_problems}
use kubernetes_ingress.Resource.{same_bool}
use kubernetes_ingress.Configuration.Problems.{
  Problems, is_new_problem, changed_problems, detect_changes_in_problems,
}

-- Two problems that differ in severity, reason or message.
abbrev pub Differs : ConfigurationProblem → ConfigurationProblem → Type 0
Differs p q = (p.is_error ≢ q.is_error) ⊎ ((p.reason ≢ q.reason) ⊎ (p.message ≢ q.message))

compare-Differs :
    (p q : ConfigurationProblem) → (compare_configuration_problems p q ≡ false) ↔ Differs p q
unfolding compare_configuration_problems same_bool
compare-Differs p q = ground (arith, eq_iff p.reason q.reason, eq_iff p.message q.message)

-- The old problems have none at the key, or one that differs.
abbrev pub IsNew : Problems → String → ConfigurationProblem → Type 0
IsNew old key p =
    (lookup key old ≡ none) ⊎ ((q : ConfigurationProblem) × (lookup key old ≡ some q) × Differs p q)

is_new_problem_iff :
    (old : Problems) (key : String) (p : ConfigurationProblem)
    → (is_new_problem old key p ≡ true) ↔ IsNew old key p
unfolding is_new_problem
is_new_problem_iff old key p = elim (Option-cases (lookup key old)) [
  | inl e ↦ ((λ h. inl e), λ z. ground arith)
  | inr (q, e) ↦ (
    (λ h. inr (q, e, (compare-Differs p q).0 (ground arith))),
    λ z. elim z [
      | inl n ↦ absurd (ground arith)
      | inr (q', e', d) ↦ ground (arith, (compare-Differs p q').1 d)
    ],
  )
]

changed_problems-In :
    (new old : Problems) (ks : List String) (p : ConfigurationProblem)
    → In p (changed_problems new old ks)
    → (key : String) × (lookup key new ≡ some p) × IsNew old key p
unfolding changed_problems
changed_problems-In new old [] p i = absurd i
changed_problems-In new old (k ∷ ks) p i =
    at_entry (lookup k new) refl (changed_problems-In new old ks p) i
  where
    Found : Type 0
    Found = (key : String) × (lookup key new ≡ some p) × IsNew old key p

    at_test :
        (q : ConfigurationProblem) (b : Bool)
        → lookup k new ≡ some q
        → is_new_problem old k q ≡ b
        → (In p (changed_problems new old ks) → Found)
        → In p (if b then q ∷ changed_problems new old ks else changed_problems new old ks)
        → Found
    at_test q true e f ih (inl same) = (
      k,
      e ∙ ap some (sym same),
      (is_new_problem_iff old k p).0 (ap (is_new_problem old k) same ∙ f),
    )
    at_test q true e f ih (inr j) = ih j
    at_test q false e f ih j = ih j

    at_entry :
        (o : Option ConfigurationProblem)
        → lookup k new ≡ o
        → (In p (changed_problems new old ks) → Found)
        → In p (elim o [
          | none ↦ changed_problems new old ks
          | some q ↦
              if is_new_problem old k q
              then q ∷ changed_problems new old ks
              else changed_problems new old ks
        ])
        → Found
    at_entry none e ih j = ih j
    at_entry (some q) e ih j = at_test q (is_new_problem old k q) e refl ih j

changed_new :
    (new old : Problems) (k : String) (ks : List String) (p : ConfigurationProblem)
    → lookup k new ≡ some p
    → is_new_problem old k p ≡ true
    → changed_problems new old (k ∷ ks) ≡ p ∷ changed_problems new old ks
unfolding changed_problems
changed_new new old k ks p e f = ground arith

changed_later :
    (new old : Problems) (k : String) (ks : List String) (p : ConfigurationProblem)
    → In p (changed_problems new old ks)
    → In p (changed_problems new old (k ∷ ks))
unfolding changed_problems
changed_later new old k ks p i = at_entry (lookup k new)
  where
    at_entry :
        (o : Option ConfigurationProblem)
        → In p (elim o [
          | none ↦ changed_problems new old ks
          | some q ↦
              if is_new_problem old k q
              then q ∷ changed_problems new old ks
              else changed_problems new old ks
        ])
    at_entry none = i
    at_entry (some q) = elim (Bool-cases (is_new_problem old k q)) [
      | inl b ↦ rw b (inr i)
      | inr b ↦ rw b i
    ]

In-changed_problems :
    (new old : Problems) (ks : List String) (key : String) (p : ConfigurationProblem)
    → In key ks
    → lookup key new ≡ some p
    → IsNew old key p
    → In p (changed_problems new old ks)
unfolding changed_problems
In-changed_problems new old [] key p i e z = absurd i
In-changed_problems new old (k ∷ ks) key p (inl same) e z =
    let e' : lookup k new ≡ some p = ap (λ x. lookup x new) (sym same) ∙ e in
    let f : is_new_problem old k p ≡ true =
      ap (λ x. is_new_problem old x p) (sym same) ∙ (is_new_problem_iff old key p).1 z in
    subst (In p) (sym (changed_new new old k ks p e' f)) (inl refl)
In-changed_problems new old (k ∷ ks) key p (inr i) e z =
    changed_later new old k ks p (In-changed_problems new old ks key p i e z)

-- A problem is reported if and only if it is one of the new problems, and the old ones have no
-- problem under its key or one that differs in severity, reason or message.
pub detect_changes_in_problems_iff :
    (new old : Problems) (p : ConfigurationProblem)
    → In p (detect_changes_in_problems new old)
      ↔ ((key : String) × (lookup key new ≡ some p) × IsNew old key p)
unfolding detect_changes_in_problems
detect_changes_in_problems_iff new old p = (
  changed_problems-In new old (get_sorted_keys new) p,
  λ z.
      let (key, e, n) = z in
      In-changed_problems new old (get_sorted_keys new) key p (In-sorted_keys new key p e) e n,
)

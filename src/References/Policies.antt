-- ===== src/References/Policies.antt =====
-- `isPolicyReferenced` against what a reference means: a missing namespace is that of the object that
-- makes the reference.
use kubernetes_ingress.Prelude.{
  String, ◌≡◌, ◌⊎◌, ◌↔◌, refl, inl, inr, Bool, true, List, [], ◌∷◌, any, arith, In, ◌==◌, eq_iff,
  Bool-cases,
}
use kubernetes_ingress.Api.{PolicyReference}
use kubernetes_ingress.References.{policy_reference_is, is_policy_referenced}

-- The reference names the policy.
abbrev pub Names : PolicyReference → String → String → String → Type 0
Names p own_namespace policy_namespace policy_name =
    (p.name ≡ policy_name)
    × (((p.namespace ≡ "") × (own_namespace ≡ policy_namespace))
        ⊎ (¬ (p.namespace ≡ "") × (p.namespace ≡ policy_namespace)))

policy_reference_is-true :
    (ns pns pn : String) (p : PolicyReference)
    → policy_reference_is ns pns pn p ≡ true
    → Names p ns pns pn
unfolding policy_reference_is
policy_reference_is-true ns pns pn p h = elim (Bool-cases (p.namespace == "")) [
  | inl e ↦ (
    ground (arith, eq_iff p.name pn),
    inl (ground (arith, eq_iff p.namespace ""), ground (arith, eq_iff ns pns)),
  )
  | inr e ↦ (
    ground (arith, eq_iff p.name pn),
    inr ((λ z. ground (arith, eq_iff p.namespace "")), ground (arith, eq_iff p.namespace pns)),
  )
]

true-policy_reference_is :
    (ns pns pn : String) (p : PolicyReference)
    → Names p ns pns pn
    → policy_reference_is ns pns pn p ≡ true
unfolding policy_reference_is
true-policy_reference_is ns pns pn p (n, inl (e, f)) =
    ground (arith, eq_iff p.name pn, eq_iff p.namespace "", eq_iff ns pns)
true-policy_reference_is ns pns pn p (n, inr (e, f)) =
    ground (arith, eq_iff p.name pn, eq_iff p.namespace "", eq_iff p.namespace pns)

any-In :
    {A : Type 0} (p : A → Bool) (xs : List A) → any p xs ≡ true → (x : A) × In x xs × (p x ≡ true)
any-In p [] h = absurd (ground arith)
any-In p (x ∷ xs) h = elim (Bool-cases (p x)) [
  | inl e ↦ (x, inl refl, e)
  | inr e ↦ let (y, i, f) = any-In p xs (ground arith) in (y, inr i, f)
]

In-any : {A : Type 0} (p : A → Bool) (xs : List A) (x : A) → In x xs → p x ≡ true → any p xs ≡ true
In-any p [] x i h = absurd i
In-any p (y ∷ xs) x (inl e) h = let h' : p y ≡ true = rw (← e) h in ground arith
In-any p (y ∷ xs) x (inr i) h = ground (arith, In-any p xs x i h)

-- A policy is referenced if and only if one of the references names it, where a reference without a
-- namespace means the namespace of the object that makes it.
pub is_policy_referenced_iff :
    (policies : List PolicyReference) (own_namespace policy_namespace policy_name : String)
    → (is_policy_referenced policies own_namespace policy_namespace policy_name ≡ true)
      ↔ ((p : PolicyReference) × In p policies × Names p own_namespace policy_namespace policy_name)
unfolding is_policy_referenced
is_policy_referenced_iff policies ns pns pn = (
  (λ h.
      let (p, i, e) = any-In (policy_reference_is ns pns pn) policies h in
      (p, i, policy_reference_is-true ns pns pn p e)),
  λ z.
      let (p, i, n) = z in
      In-any (policy_reference_is ns pns pn) policies p i (true-policy_reference_is ns pns pn p n),
)

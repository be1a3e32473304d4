-- ===== src/CustomResources/Upstreams/Names.antt =====
-- The names of upstreams without errors.
use mathlib.Core.List.{◌++◌}
use kubernetes_ingress.Prelude.{
  ℕ, suc, String, ◌≡◌, ◌⊎◌, refl, subst, inl, inr, Bool, List, [], ◌∷◌, map, In, Distinct,
  append-[], arith, Bool-cases,
}
use kubernetes_ingress.Api.{Upstream}
use kubernetes_ingress.Parsing.Strings.{contains}
use kubernetes_ingress.Parsing.Members.{contains-In}
use kubernetes_ingress.Validation.Errors.{FieldPath, child, index, ErrorList}
use kubernetes_ingress.CustomResources.Checks.{Checks}
use kubernetes_ingress.CustomResources.Fields.{validate_upstream_name}
use kubernetes_ingress.CustomResources.Upstreams.{
  add_upstream_name, validate_upstream, validate_upstreams_from, validate_upstreams,
}

-- A name that is added without an error is new.
pub add_upstream_name-new :
    (checks : Checks) (name : String) (path : FieldPath) (names : List String)
    → (add_upstream_name checks name path names).0 ≡ []
    → ¬ (In name names) × ((add_upstream_name checks name path names).1 ≡ name ∷ names)
unfolding add_upstream_name
add_upstream_name-new checks name path names h =
    at_errors (validate_upstream_name checks name path) refl
  where
    at_errors :
        (errs : ErrorList)
        → validate_upstream_name checks name path ≡ errs
        → ¬ (In name names) × ((add_upstream_name checks name path names).1 ≡ name ∷ names)
    at_errors (x ∷ xs) e = absurd (ground (arith, rw e at h))
    at_errors [] e = elim (Bool-cases (contains names name)) [
      | inl c ↦ absurd (ground (arith, rw (e, c) at h))
      | inr c ↦ ((λ i. ground (arith, c, (contains-In names name).1 i)), rw (e, c) refl)
    ]

-- The names seen after upstreams without errors: those before and those of the upstreams `us`, which are
-- distinct and new.
pub record AddsNames (names : List String) (us : List String) (names' : List String) : Type 0 where
  pub distinct : Distinct us
  pub fresh : (x : String) → In x names → ¬ (In x us)
  pub known : (x : String) → In x names' → In x names ⊎ In x us

pub AddsNames-∷ :
    (names : List String) (u : String) (us : List String) (names' : List String)
    → ¬ (In u names)
    → AddsNames (u ∷ names) us names'
    → AddsNames names (u ∷ us) names'
AddsNames-∷ names u us names' new adds = record {
  distinct = (adds.fresh u (inl refl), adds.distinct);
  fresh = λ x i j. elim j [
    | inl e ↦ new (subst (λ y. In y names) e i)
    | inr k ↦ adds.fresh x (inr i) k
  ];
  known = λ x i. elim (adds.known x i) [
    | inl (inl e) ↦ inr (inl e)
    | inl (inr j) ↦ inl j
    | inr j ↦ inr (inr j)
  ];
}

module _ (checks : Checks) (is_plus : Bool) where
  validate_upstreams_from-AddsNames :
      (i : ℕ) (names : List String) (us : List Upstream) (path : FieldPath)
      → (validate_upstreams_from checks is_plus i names us path).0 ≡ []
      → AddsNames names
          (map (λ u. u.name) us)
          (validate_upstreams_from checks is_plus i names us path).1
  unfolding validate_upstreams_from
  validate_upstreams_from-AddsNames i names [] path h = record {
    distinct = tt;
    fresh = λ x _ n. n;
    known = λ x n. inl n;
  }
  validate_upstreams_from-AddsNames i names (u ∷ us) path h =
      let named = add_upstream_name checks u.name (child (index path i) "name") names in
      let rest = validate_upstreams_from checks is_plus (suc i) named.1 us path in
      let (e, es) =
        append-[] named.0 (validate_upstream checks is_plus u (index path i) ++ rest.0) h in
      let (_, rest_ok) = append-[] (validate_upstream checks is_plus u (index path i)) rest.0 es in
      let (new, added) =
        add_upstream_name-new checks u.name (child (index path i) "name") names e in
      AddsNames-∷ names u.name (map (λ u. u.name) us) rest.1 new (
        subst (λ ns. AddsNames ns (map (λ u. u.name) us) rest.1) added
          (validate_upstreams_from-AddsNames (suc i) named.1 us path rest_ok))

  -- Upstreams without errors have different names, and the names that the routes may refer to are
  -- theirs.
  pub validate_upstreams-names :
      (us : List Upstream) (path : FieldPath)
      → (validate_upstreams checks is_plus us path).0 ≡ []
      → Distinct (map (λ u. u.name) us)
        × ((x : String)
            → In x (validate_upstreams checks is_plus us path).1
            → In x (map (λ u. u.name) us))
  unfolding validate_upstreams
  validate_upstreams-names us path h =
      let adds = validate_upstreams_from-AddsNames 0 [] us path h in
      (adds.distinct, λ x i. elim (adds.known x i) [ inl n ↦ absurd n | inr j ↦ j ])

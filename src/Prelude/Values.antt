-- ===== src/Prelude/Values.antt =====
-- The values of a map whose values tell their key: in a loop over the map no key comes twice.
use Prim.Native.String.{String}
use mathlib.Core.Path.{◌≡◌, ◌∙◌}
use mathlib.Core.Logic.{inl, inr}
use mathlib.Core.Option.{some}
use mathlib.Core.List.{List, [], ◌∷◌, map}
use kubernetes_ingress.Prelude.Tests.{Option-cases}
use kubernetes_ingress.Prelude.Lists.{In}
use kubernetes_ingress.Prelude.Maps.{
  Distinct, StrMap, lookup, values_at, sorted_values, get_sorted_keys,
}
use kubernetes_ingress.Prelude.Sorted.{
  sorted_keys-IsIncreasing, IsIncreasing-Distinct, values_at-some, values_at-none,
}

module _ {V : Type 0} (key : V → String) (m : StrMap V)
    (own : (k : String) (v : V) → lookup k m ≡ some v → key v ≡ k) where
  map-values_at-In : (ks : List String) (x : String) → In x (map key (values_at m ks)) → In x ks
  unfolding values_at
  map-values_at-In [] x i = absurd i
  map-values_at-In (k ∷ ks) x i = elim (Option-cases (lookup k m)) [
    | inl n ↦ inr (map-values_at-In ks x (rw (values_at-none m k ks n) at i))
    | inr (v, e) ↦ later v e (map-values_at-In ks x) (rw (values_at-some m k ks v e) at i)
  ]
    where
      later :
          (v : V)
          → lookup k m ≡ some v
          → (In x (map key (values_at m ks)) → In x ks)
          → In x (key v ∷ map key (values_at m ks))
          → In x (k ∷ ks)
      later v e rest (inl p) = inl (p ∙ own k v e)
      later v e rest (inr j) = inr (rest j)

  map-values_at-Distinct : (ks : List String) → Distinct ks → Distinct (map key (values_at m ks))
  unfolding values_at
  map-values_at-Distinct [] d = tt
  map-values_at-Distinct (k ∷ ks) d = elim (Option-cases (lookup k m)) [
    | inl n ↦ rw (values_at-none m k ks n) (map-values_at-Distinct ks d.1)
    | inr (v, e) ↦ rw (values_at-some m k ks v e) (
      (λ i. d.0 (rw (own k v e) at (map-values_at-In ks (key v) i))),
      map-values_at-Distinct ks d.1,
    )
  ]

  pub map-sorted_values-Distinct : Distinct (map key (sorted_values m))
  map-sorted_values-Distinct =
      map-values_at-Distinct (get_sorted_keys m)
        (IsIncreasing-Distinct (get_sorted_keys m) (sorted_keys-IsIncreasing m))

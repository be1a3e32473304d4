-- ===== src/Prelude/Maps.antt =====
-- Go's `map[string]V` as an association list in which the first entry of a key counts. `keys` lists
-- each key once, and `get_sorted_keys` is a range over the map followed by `sort.Strings`.
use Prim.Native.String.{String}
use mathlib.Core.Path.{◌≡◌, refl}
use mathlib.Core.List.{List, [], ◌∷◌}
use mathlib.Core.Option.{Option, none, some}
use native.Mathlib.Omega.{arith}
use text.Mathlib.Text.{◌==◌}
use text.Mathlib.TextEquality.{eq_iff}
use kubernetes_ingress.Prelude.Tests.{if◌then◌else◌}
use kubernetes_ingress.Prelude.Lists.{In}
use kubernetes_ingress.Prelude.Text.{str_lt}

abbrev pub Distinct : {A : Type 0} → List A → Type 0
Distinct [] = Unit
Distinct (x ∷ xs) = ¬ (In x xs) × Distinct xs

-- The list without one string.
unfoldable pub without : String → List String → List String
without k [] = []
without k (x ∷ xs) = let rest = without k xs in if x == k then rest else x ∷ rest

unfoldable pub insert_sorted : String → List String → List String
insert_sorted k [] = k ∷ []
insert_sorted k (x ∷ xs) =
    let rest = insert_sorted k xs in if str_lt x k then x ∷ rest else k ∷ x ∷ xs

-- `sort.Strings`
unfoldable pub sort_strings : List String → List String
unfolding insert_sorted
sort_strings [] = []
sort_strings (x ∷ xs) = insert_sorted x (sort_strings xs)

abbrev pub StrMap : Type 0 → Type 0
StrMap V = List (String × V)

module _ {V : Type 0} where
  -- v, exists := m[k]
  unfoldable pub lookup : String → StrMap V → Option V
  lookup k [] = none
  lookup k ((j, v) ∷ m) = if j == k then some v else lookup k m

  -- m[k] = v
  abbrev pub insert : String → V → StrMap V → StrMap V
  insert k v m = (k, v) ∷ m

  -- delete(m, k)
  unfoldable pub delete : String → StrMap V → StrMap V
  delete k [] = []
  delete k ((j, v) ∷ m) = let rest = delete k m in if j == k then rest else (j, v) ∷ rest

  unfoldable pub keys : StrMap V → List String
  unfolding without
  keys [] = []
  keys ((k, v) ∷ m) = k ∷ without k (keys m)

  unfoldable pub get_sorted_keys : StrMap V → List String
  unfolding keys sort_strings
  get_sorted_keys m = sort_strings (keys m)

  -- The values in the order of their sorted keys: the loops `for _, k := range sorted(m) { v := m[k] … }`.
  unfoldable pub values_at : StrMap V → List String → List V
  values_at m [] = []
  values_at m (k ∷ ks) =
      let rest = values_at m ks in elim (lookup k m) [ none ↦ rest | some v ↦ v ∷ rest ]

  abbrev pub sorted_values : StrMap V → List V
  sorted_values m = values_at m (get_sorted_keys m)

  pub lookup-insert :
      (k j : String) (v : V) (m : StrMap V)
      → lookup j (insert k v m) ≡ (if k == j then some v else lookup j m)
  unfolding lookup
  lookup-insert k j v m = refl

  pub lookup-delete :
      (k j : String) (m : StrMap V) → lookup j (delete k m) ≡ (if k == j then none else lookup j m)
  unfolding lookup delete
  lookup-delete k j [] = ground arith
  lookup-delete k j ((i, v) ∷ m) =
      ground (arith, lookup-delete k j m, eq_iff i k, eq_iff i j, eq_iff k j)

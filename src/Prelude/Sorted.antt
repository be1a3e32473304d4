-- ===== src/Prelude/Sorted.antt =====
-- What a range over sorted keys visits: every key once, in increasing order, and so the same list
-- whatever order the map's own iteration has.
use Prim.Native.String.{String}
use mathlib.Core.Path.{◌≡◌, refl, sym, ap₂, ◌∙◌}
use mathlib.Core.Logic.{◌⊎◌, inl, inr}
use mathlib.Core.Bool.{true, false}
use mathlib.Core.List.{List, [], ◌∷◌}
use mathlib.Core.Option.{none, some}
use native.Mathlib.Omega.{arith}
use text.Mathlib.Text.{◌==◌}
use text.Mathlib.TextEquality.{eq_iff}
use kubernetes_ingress.Prelude.Tests.{Bool-cases, Option-cases}
use kubernetes_ingress.Prelude.Lists.{In}
use kubernetes_ingress.Prelude.Text.{
  str_lt, str_lt_trans, str_lt_total, str_lt_irrefl, str_lt_asymm,
}
use kubernetes_ingress.Prelude.Maps.{
  Distinct, without, insert_sorted, sort_strings, StrMap, lookup, keys, get_sorted_keys, values_at,
  sorted_values,
}

In-without : (a k : String) (xs : List String) → In a xs → ((a == k) ≡ false) → In a (without k xs)
unfolding without
In-without a k [] h n = h
In-without a k (x ∷ xs) h n = ground (arith, In-without a k xs, eq_iff x k, eq_iff a k)

without-In : (a k : String) (xs : List String) → In a (without k xs) → In a xs × ((a == k) ≡ false)
unfolding without
without-In a k [] h = absurd h
without-In a k (x ∷ xs) h = ground (arith, without-In a k xs, eq_iff x k, eq_iff a k)

without-Distinct : (k : String) (xs : List String) → Distinct xs → Distinct (without k xs)
unfolding without
without-Distinct k [] d = d
without-Distinct k (x ∷ xs) d =
    ground (arith, without-Distinct k xs, λ (h : In x (without k xs)). d.0 (without-In x k xs h).0)

In-insert_sorted : (a k : String) (xs : List String) → (a ≡ k) ⊎ In a xs → In a (insert_sorted k xs)
unfolding insert_sorted
In-insert_sorted a k [] h = ground arith
In-insert_sorted a k (x ∷ xs) h = ground (arith, In-insert_sorted a k xs)

insert_sorted-In : (a k : String) (xs : List String) → In a (insert_sorted k xs) → (a ≡ k) ⊎ In a xs
unfolding insert_sorted
insert_sorted-In a k [] h = h
insert_sorted-In a k (x ∷ xs) h = ground (arith, insert_sorted-In a k xs)

In-sort : (a : String) (xs : List String) → In a xs → In a (sort_strings xs)
unfolding sort_strings
In-sort a [] h = h
In-sort a (x ∷ xs) (inl e) = In-insert_sorted a x (sort_strings xs) (inl e)
In-sort a (x ∷ xs) (inr h) = In-insert_sorted a x (sort_strings xs) (inr (In-sort a xs h))

sort-In : (a : String) (xs : List String) → In a (sort_strings xs) → In a xs
unfolding sort_strings
sort-In a [] h = h
sort-In a (x ∷ xs) h = ground (arith, insert_sorted-In a x (sort_strings xs) h, sort-In a xs)

-- Strictly increasing.
abbrev pub IsIncreasing : List String → Type 0
IsIncreasing [] = Unit
IsIncreasing (x ∷ xs) = ((y : String) → In y xs → str_lt x y ≡ true) × IsIncreasing xs

lt_of_not-lt : (x k : String) → str_lt x k ≡ false → ¬ (k ≡ x) → str_lt k x ≡ true
lt_of_not-lt x k h n = ground (arith, str_lt_total k x)

insert_sorted-IsIncreasing :
    (k : String) (xs : List String)
    → ¬ (In k xs)
    → IsIncreasing xs
    → IsIncreasing (insert_sorted k xs)
unfolding insert_sorted
insert_sorted-IsIncreasing k [] n s = ((λ y h. absurd h), tt)
insert_sorted-IsIncreasing k (x ∷ xs) n s = elim (Bool-cases (str_lt x k)) [
  | inl h ↦ rw h (
    (λ y i. above h y (insert_sorted-In y k xs i)),
    insert_sorted-IsIncreasing k xs (λ i. n (inr i)) s.1,
  )
  | inr h ↦ rw h ((λ y i. below h y i), s)
]
  where
    above : str_lt x k ≡ true → (y : String) → (y ≡ k) ⊎ In y xs → str_lt x y ≡ true
    above h y (inl e) = rw e h
    above h y (inr i) = s.0 y i

    below : str_lt x k ≡ false → (y : String) → In y (x ∷ xs) → str_lt k y ≡ true
    below h y (inl e) = rw e (lt_of_not-lt x k h (λ e. n (inl e)))
    below h y (inr i) = str_lt_trans k x y (lt_of_not-lt x k h (λ e. n (inl e))) (s.0 y i)

sort-IsIncreasing : (xs : List String) → Distinct xs → IsIncreasing (sort_strings xs)
unfolding sort_strings
sort-IsIncreasing [] d = tt
sort-IsIncreasing (x ∷ xs) d =
    insert_sorted-IsIncreasing x (sort_strings xs) (λ h. d.0 (sort-In x xs h))
      (sort-IsIncreasing xs d.1)

pub IsIncreasing-Distinct : (xs : List String) → IsIncreasing xs → Distinct xs
IsIncreasing-Distinct [] s = tt
IsIncreasing-Distinct (x ∷ xs) s =
    ((λ h. cc (s.0 x h, str_lt_irrefl x)), IsIncreasing-Distinct xs s.1)

module _ {V : Type 0} where
  pub In-keys : (k : String) (m : StrMap V) (v : V) → lookup k m ≡ some v → In k (keys m)
  unfolding lookup keys
  In-keys k [] v h = cc
  In-keys k ((j, w) ∷ m) v h =
      ground (arith, eq_iff j k, eq_iff k j, In-keys k m v, In-without k j (keys m))

  pub keys-In : (k : String) (m : StrMap V) → In k (keys m) → (v : V) × (lookup k m ≡ some v)
  unfolding lookup keys
  keys-In k [] h = absurd h
  keys-In k ((j, w) ∷ m) h = elim (Bool-cases (j == k)) [
    | inl e ↦ (w, rw e)
    | inr e ↦
        let (v, found) = keys-In k m (without-In k j (keys m) (other e h)).0 in (v, rw e found)
  ]
    where
      other : (j == k) ≡ false → (k ≡ j) ⊎ In k (without j (keys m)) → In k (without j (keys m))
      other e (inl p) = cc (e, (eq_iff j k).1 (sym p))
      other e (inr i) = i

  keys-Distinct : (m : StrMap V) → Distinct (keys m)
  unfolding keys
  keys-Distinct [] = tt
  keys-Distinct ((j, w) ∷ m) = (
    (λ h. cc ((without-In j j (keys m) h).1, (eq_iff j j).1 refl)),
    without-Distinct j (keys m) (keys-Distinct m),
  )

  pub In-sorted_keys :
      (m : StrMap V) (k : String) (v : V) → lookup k m ≡ some v → In k (get_sorted_keys m)
  unfolding get_sorted_keys
  In-sorted_keys m k v h = In-sort k (keys m) (In-keys k m v h)

  pub sorted_keys-In :
      (m : StrMap V) (k : String) → In k (get_sorted_keys m) → (v : V) × (lookup k m ≡ some v)
  unfolding get_sorted_keys
  sorted_keys-In m k h = keys-In k m (sort-In k (keys m) h)

  pub sorted_keys-IsIncreasing : (m : StrMap V) → IsIncreasing (get_sorted_keys m)
  unfolding get_sorted_keys
  sorted_keys-IsIncreasing m = sort-IsIncreasing (keys m) (keys-Distinct m)

  pub values_at-some :
      (m : StrMap V) (k : String) (ks : List String) (v : V)
      → lookup k m ≡ some v
      → values_at m (k ∷ ks) ≡ v ∷ values_at m ks
  unfolding values_at
  values_at-some m k ks v h = rw (h, values_at)

  pub values_at-none :
      (m : StrMap V) (k : String) (ks : List String)
      → lookup k m ≡ none
      → values_at m (k ∷ ks) ≡ values_at m ks
  unfolding values_at
  values_at-none m k ks h = rw (h, values_at)

  In-values_at :
      (m : StrMap V) (ks : List String) (k : String) (v : V)
      → lookup k m ≡ some v
      → In k ks
      → In v (values_at m ks)
  In-values_at m (x ∷ ks) k v h (inl e) = rw (values_at-some m x ks v (rw e at h)) (inl refl)
  In-values_at m (x ∷ ks) k v h (inr i) = elim (Option-cases (lookup x m)) [
    | inl n ↦ rw (values_at-none m x ks n) (In-values_at m ks k v h i)
    | inr (w, e) ↦ rw (values_at-some m x ks w e) (inr (In-values_at m ks k v h i))
  ]
  In-values_at m [] k v h i = absurd i

  values_at-In :
      (m : StrMap V) (ks : List String) (v : V)
      → In v (values_at m ks)
      → (k : String) × In k ks × (lookup k m ≡ some v)
  unfolding values_at
  values_at-In m [] v i = absurd i
  values_at-In m (x ∷ ks) v i = elim (Option-cases (lookup x m)) [
    | inl n ↦
        let (k, at, h) = values_at-In m ks v (rw (values_at-none m x ks n) at i) in (k, inr at, h)
    | inr (w, e) ↦ first (values_at-In m ks v) w e (rw (values_at-some m x ks w e) at i)
  ]
    where
      first :
          (In v (values_at m ks) → (k : String) × In k ks × (lookup k m ≡ some v))
          → (w : V) → lookup x m ≡ some w
          → In v (w ∷ values_at m ks)
          → (k : String) × In k (x ∷ ks) × (lookup k m ≡ some v)
      first rest w e (inl p) = (x, inl refl, rw p e)
      first rest w e (inr j) = let (k, at, h) = rest j in (k, inr at, h)

  -- A loop over the sorted keys sees every entry of the map and nothing else.
  pub In-sorted_values :
      (m : StrMap V) (k : String) (v : V) → lookup k m ≡ some v → In v (sorted_values m)
  In-sorted_values m k v h = In-values_at m (get_sorted_keys m) k v h (In-sorted_keys m k v h)

  pub sorted_values-In :
      (m : StrMap V) (v : V) → In v (sorted_values m) → (k : String) × (lookup k m ≡ some v)
  sorted_values-In m v i = let (k, _, h) = values_at-In m (get_sorted_keys m) v i in (k, h)

-- Two increasing lists with the same members are the same list.
pub IsIncreasing-unique :
    (xs ys : List String)
    → IsIncreasing xs
    → IsIncreasing ys
    → ((z : String) → In z xs → In z ys)
    → ((z : String) → In z ys → In z xs)
    → xs ≡ ys
IsIncreasing-unique [] [] s t f g = refl
IsIncreasing-unique [] (y ∷ ys) s t f g = absurd (g y (inl refl))
IsIncreasing-unique (x ∷ xs) [] s t f g = absurd (f x (inl refl))
IsIncreasing-unique (x ∷ xs) (y ∷ ys) s t f g = ap₂ ◌∷◌ heads (
    IsIncreasing-unique xs ys s.1 t.1
      (λ z i. other ys y z (f z (inr i)) (λ e. cc (s.0 z i, heads, e, str_lt_irrefl x)))
      (λ z i. other xs x z (g z (inr i)) (λ e. cc (t.0 z i, heads, e, str_lt_irrefl y))))
  where
    other : (w : List String) (a z : String) → (z ≡ a) ⊎ In z w → ¬ (z ≡ a) → In z w
    other w a z (inl e) n = absurd (n e)
    other w a z (inr i) n = i

    heads : x ≡ y
    heads = ground (arith, f x (inl refl), g y (inl refl), s.0 y, t.0 x, str_lt_asymm x y)

-- The order in which the loops visit a map depends only on what its keys hold: two maps that hold the
-- same have the same sorted keys.
pub get_sorted_keys_unique :
    {V : Type 0} (m n : StrMap V)
    → ((k : String) → lookup k m ≡ lookup k n)
    → get_sorted_keys m ≡ get_sorted_keys n
get_sorted_keys_unique m n same =
    IsIncreasing-unique (get_sorted_keys m) (get_sorted_keys n) (sorted_keys-IsIncreasing m)
      (sorted_keys-IsIncreasing n)
      (λ z i. let (v, e) = sorted_keys-In m z i in In-sorted_keys n z v (sym (same z) ∙ e))
      (λ z i. let (v, e) = sorted_keys-In n z i in In-sorted_keys m z v (same z ∙ e))

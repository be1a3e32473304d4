-- ===== src/CustomResources/Routes/Weights.antt =====
-- The weights of splits.
use kubernetes_ingress.Prelude.{
  ℕ, suc, ◌+◌, ◌*◌, ◌^◌, ◌≤◌, ◌<◌, ℤ, pos, negsuc, leq, ◌+ℤ◌, int_of-pos, String, ◌≡◌, refl, sym,
  ap, ◌∙◌, subst, inl, inr, Bool, true, List, [], ◌∷◌, In, append-[], arith, length,
}
use kubernetes_ingress.Api.{Split}
use kubernetes_ingress.Validation.Errors.{FieldPath, child, index}
use kubernetes_ingress.CustomResources.Checks.{Checks, invalid_int_all}
use kubernetes_ingress.CustomResources.Routes.{
  validate_split_action, validate_splits_from, validate_splits, total_weight, is_hundred,
}
use kubernetes_ingress.CustomResources.Routes.Referenced.{validate_splits-parts}

-- What `IsInRange` and `IsValidPortNum` promise: no message only for a value in the range.
pub record IsRangeCheck (checks : Checks) : Type 0 where
  pub in_range :
      (v lo hi : ℤ) → checks.is_in_range v lo hi ≡ [] → (leq lo v ≡ true) × (leq v hi ≡ true)

-- A weight that is allowed.
abbrev pub IsWeight : ℤ → Type 0
IsWeight w = (n : ℕ) × (w ≡ pos n) × (1 ≤ n) × (n ≤ 99)

abbrev pub natural : ℤ → ℕ
natural (pos n) = n
natural (negsuc n) = 0

abbrev pub sum_weights : List Split → ℕ
sum_weights [] = 0
sum_weights (s ∷ splits) = natural s.weight + sum_weights splits

invalid_int_all-[] :
    (path : FieldPath) (v : ℤ) (msgs : List String) → invalid_int_all path v msgs ≡ [] → msgs ≡ []
unfolding invalid_int_all
invalid_int_all-[] path v [] h = refl
invalid_int_all-[] path v (msg ∷ msgs) h = cc

leq-IsWeight : (w : ℤ) → leq (pos 1) w ≡ true → leq w (pos 99) ≡ true → IsWeight w
unfolding leq
leq-IsWeight (pos n) h k = (n, refl, ground arith, ground arith)
leq-IsWeight (negsuc n) h k = cc

-- The sum does not wrap around.
total_weight-sum :
    (splits : List Split) (t : ℕ)
    → ((s : Split) → In s splits → IsWeight s.weight)
    → t + 99 * length splits < 2 ^ 63
    → total_weight (pos t) splits ≡ pos (t + sum_weights splits)
unfolding total_weight ◌+ℤ◌
total_weight-sum [] t all small = ap pos (omega arith)
total_weight-sum (s ∷ splits) t all small =
    let (n, e, low, high) = all s (inl refl) in
    let small' : t + n < 2 ^ 63 = omega arith in
    rw (e, int_of-pos (t + n) small')
      (total_weight-sum splits (t + n) (λ r i. all r (inr i)) (omega arith) ∙ ap pos (omega arith))

module _ (checks : Checks) (is_plus : Bool) (law : IsRangeCheck checks) where
  validate_splits_from-IsWeight :
      (i : ℕ) (splits : List Split) (path : FieldPath) (names : List String) (route_path : String)
      → validate_splits_from checks is_plus i splits path names route_path ≡ []
      → (s : Split) → In s splits
      → IsWeight s.weight
  unfolding validate_splits_from
  validate_splits_from-IsWeight i [] path names route_path h s at = absurd at
  validate_splits_from-IsWeight i (r ∷ splits) path names route_path h s at =
      let (weight, rest) =
        append-[]
          (invalid_int_all (child (index path i) "weight") r.weight
            (checks.is_in_range r.weight (pos 1) (pos 99)))
          _ h in
      let (_, splits_ok) =
        append-[]
          (validate_split_action checks is_plus r.action (child (index path i) "action") names
            route_path)
          _ rest in
      elim at [
        | inl e ↦
            let (low, high) = law.in_range r.weight (pos 1) (pos 99) (
              invalid_int_all-[] (child (index path i) "weight") r.weight
                (checks.is_in_range r.weight (pos 1) (pos 99)) weight) in
            subst (λ x. IsWeight x.weight) (sym e) (leq-IsWeight r.weight low high)
        | inr j ↦ validate_splits_from-IsWeight (suc i) splits path names route_path splits_ok s j
      ]

  -- Splits without errors, fewer than 2^50, are at least two, have weights from 1 to 99, and the
  -- weights sum to 100.
  pub validate_splits-weights :
      (splits : List Split) (path : FieldPath) (names : List String) (route_path : String)
      → length splits < 2 ^ 50
      → validate_splits checks is_plus splits path names route_path ≡ []
      → (2 ≤ length splits)
        × ((s : Split) → In s splits → IsWeight s.weight)
        × (sum_weights splits ≡ 100)
  unfolding is_hundred
  validate_splits-weights splits path names route_path few h =
      let (two, each, hundred) =
        validate_splits-parts checks is_plus splits path names route_path h in
      let weights = validate_splits_from-IsWeight 0 splits path names route_path each in
      let total : total_weight (pos 0) splits ≡ pos (0 + sum_weights splits) =
        total_weight-sum splits 0 weights (omega arith) in
      (ground arith, weights, ground (arith, ap is_hundred total))

-- ===== src/CustomResources/Routes/Referenced.antt =====
-- The upstreams that routes refer to, and the choice of a route.
use mathlib.Core.List.{◌++◌}
use kubernetes_ingress.Prelude.{
  ℕ, suc, String, ◌≡◌, inl, inr, Bool, true, false, Option, none, some, List, [], ◌∷◌, In,
  In-append_cases, append-[], arith, eqb, ltb, length, pos, eqb_iff, Bool-cases, if-false,
}
use kubernetes_ingress.Api.{Action, Split, Match, Route}
use kubernetes_ingress.Validation.Errors.{FieldPath, child, index}
use kubernetes_ingress.CustomResources.Checks.{Checks, invalid_int_all}
use kubernetes_ingress.CustomResources.Fields.{validate_policies, validate_route_path}
use kubernetes_ingress.CustomResources.Actions.Referenced.{action_upstreams, validate_action-In}
use kubernetes_ingress.CustomResources.Routes.{
  validate_optional_action, validate_split_action, is_hundred, total_weight, validate_splits_from,
  validate_splits, validate_optional_splits, validate_match, validate_matches, validate_route,
  validate_route_reference, field_count,
}
use kubernetes_ingress.CustomResources.Routes.Pages.{validate_error_pages}

-- The upstreams of a set action, of splits, of matches and of a route.
abbrev pub set_action_upstreams : Option Action → List String
set_action_upstreams none = []
set_action_upstreams (some action) = action_upstreams action

abbrev pub split_upstreams : List Split → List String
split_upstreams [] = []
split_upstreams (s ∷ splits) = set_action_upstreams s.action ++ split_upstreams splits

abbrev pub match_upstreams : List Match → List String
match_upstreams [] = []
match_upstreams (m ∷ matches) =
    set_action_upstreams m.action ++ (split_upstreams m.splits ++ match_upstreams matches)

abbrev pub route_upstreams : Route → List String
route_upstreams route =
    set_action_upstreams route.action
    ++ (split_upstreams route.splits ++ match_upstreams route.matches)

-- All of some names are among others.
abbrev pub AllIn : List String → List String → Type 0
AllIn xs names = (x : String) → In x xs → In x names

AllIn-append :
    (xs ys names : List String) → AllIn xs names → AllIn ys names → AllIn (xs ++ ys) names
AllIn-append xs ys names h k x i = elim (In-append_cases x xs ys i) [
  | inl j ↦ h x j
  | inr j ↦ k x j
]

module _ (checks : Checks) (is_plus : Bool) where
  validate_optional_action-AllIn :
      (action : Option Action) (path : FieldPath) (names : List String) (route_path : String)
      (internal : Bool)
      → validate_optional_action checks is_plus action path names route_path internal ≡ []
      → AllIn (set_action_upstreams action) names
  unfolding validate_optional_action
  validate_optional_action-AllIn none path names route_path internal h = λ x i. absurd i
  validate_optional_action-AllIn (some action) path names route_path internal h =
      (validate_action-In checks is_plus action path names route_path internal h).1

  validate_split_action-AllIn :
      (action : Option Action) (path : FieldPath) (names : List String) (route_path : String)
      → validate_split_action checks is_plus action path names route_path ≡ []
      → AllIn (set_action_upstreams action) names
  unfolding validate_split_action
  validate_split_action-AllIn none path names route_path h = λ x i. absurd i
  validate_split_action-AllIn (some action) path names route_path h =
      (validate_action-In checks is_plus action path names route_path true h).1

  validate_splits_from-AllIn :
      (i : ℕ) (splits : List Split) (path : FieldPath) (names : List String) (route_path : String)
      → validate_splits_from checks is_plus i splits path names route_path ≡ []
      → AllIn (split_upstreams splits) names
  unfolding validate_splits_from
  validate_splits_from-AllIn i [] path names route_path h = λ x n. absurd n
  validate_splits_from-AllIn i (s ∷ splits) path names route_path h =
      let (_, rest) =
        append-[]
          (invalid_int_all (child (index path i) "weight") s.weight
            (checks.is_in_range s.weight (pos 1) (pos 99)))
          _ h in
      let (action, splits_ok) =
        append-[]
          (validate_split_action checks is_plus s.action (child (index path i) "action") names
            route_path)
          _ rest in
      AllIn-append (set_action_upstreams s.action) (split_upstreams splits) names
        (validate_split_action-AllIn s.action (child (index path i) "action") names route_path
          action)
        (validate_splits_from-AllIn (suc i) splits path names route_path splits_ok)

  pub validate_splits-parts :
      (splits : List Split) (path : FieldPath) (names : List String) (route_path : String)
      → validate_splits checks is_plus splits path names route_path ≡ []
      → (ltb (length splits) 2 ≡ false)
        × (validate_splits_from checks is_plus 0 splits path names route_path ≡ [])
        × (is_hundred (total_weight (pos 0) splits) ≡ true)
  unfolding validate_splits
  validate_splits-parts splits path names route_path h = elim (Bool-cases (ltb (length splits) 2)) [
    | inl e ↦ absurd (ground (arith, rw e at h))
    | inr e ↦
        let (each, sum) =
          append-[] (validate_splits_from checks is_plus 0 splits path names route_path) _
            (if-false (ltb (length splits) 2) _ _ [] e h) in
        (
          e,
          each,
          elim (Bool-cases (is_hundred (total_weight (pos 0) splits))) [
            | inl t ↦ t
            | inr t ↦ absurd (ground (arith, rw t at sum))
          ],
        )
  ]

  validate_optional_splits-AllIn :
      (splits : List Split) (path : FieldPath) (names : List String) (route_path : String)
      → validate_optional_splits checks is_plus splits path names route_path ≡ []
      → AllIn (split_upstreams splits) names
  unfolding validate_optional_splits
  validate_optional_splits-AllIn [] path names route_path h = λ x n. absurd n
  validate_optional_splits-AllIn (s ∷ splits) path names route_path h =
      validate_splits_from-AllIn 0 (s ∷ splits) path names route_path
        (validate_splits-parts (s ∷ splits) path names route_path h).1

  validate_matches-AllIn :
      (i : ℕ) (ms : List Match) (path : FieldPath) (names : List String) (route_path : String)
      → validate_matches checks is_plus i ms path names route_path ≡ []
      → AllIn (match_upstreams ms) names
  unfolding validate_matches validate_match
  validate_matches-AllIn i [] path names route_path h = λ x n. absurd n
  validate_matches-AllIn i (m ∷ ms) path names route_path h =
      let (one, rest) =
        append-[] (validate_match checks is_plus m (index path i) names route_path) _ h in
      let (_, parts) = append-[] _ _ one in
      let (action, more) =
        append-[]
          (validate_optional_action checks is_plus m.action (child (index path i) "action") names
            route_path true)
          _ parts in
      let (splits, _) =
        append-[]
          (validate_optional_splits checks is_plus m.splits (child (index path i) "splits") names
            route_path)
          _ more in
      AllIn-append (set_action_upstreams m.action) (split_upstreams m.splits ++ match_upstreams ms)
        names
        (validate_optional_action-AllIn m.action (child (index path i) "action") names route_path
          true action)
        (AllIn-append (split_upstreams m.splits) (match_upstreams ms) names
          (validate_optional_splits-AllIn m.splits (child (index path i) "splits") names route_path
            splits)
          (validate_matches-AllIn (suc i) ms path names route_path rest))

  -- What a route without errors is.
  pub validate_route-parts :
      (route : Route) (path : FieldPath) (names : List String) (forbidden_route : Bool)
      (namespace : String)
      → validate_route checks is_plus route path names forbidden_route namespace ≡ []
      → AllIn (route_upstreams route) names
        × (field_count checks is_plus route forbidden_route ≡ 1)
        × (validate_optional_splits checks is_plus route.splits
              (child path "splits")
              names
              route.path
            ≡ [])
        × (validate_route_reference checks is_plus route.route (child path "route") forbidden_route
            ≡ [])
  unfolding validate_route
  validate_route-parts route path names forbidden_route namespace h =
      let (_, h₁) = append-[] (validate_route_path checks route.path (child path "path")) _ h in
      let (_, h₂) =
        append-[] (validate_policies checks route.policies (child path "policies") namespace) _
          h₁ in
      let (action, h₃) =
        append-[]
          (validate_optional_action checks is_plus route.action (child path "action") names
            route.path false)
          _ h₂ in
      let (splits, h₄) =
        append-[]
          (validate_optional_splits checks is_plus route.splits (child path "splits") names
            route.path)
          _ h₃ in
      let (matches, h₅) =
        append-[]
          (validate_matches checks is_plus 0 route.matches (child path "matches") names route.path)
          _ h₄ in
      let (_, h₆) =
        append-[]
          (validate_error_pages checks is_plus 0 route.error_pages (child path "errorPages")) _
          h₅ in
      let (reference, h₇) =
        append-[]
          (validate_route_reference checks is_plus route.route (child path "route") forbidden_route)
          _ h₆ in
      (
        AllIn-append (set_action_upstreams route.action)
            (split_upstreams route.splits ++ match_upstreams route.matches) names
            (validate_optional_action-AllIn route.action (child path "action") names route.path
              false action)
            (AllIn-append (split_upstreams route.splits) (match_upstreams route.matches) names
              (validate_optional_splits-AllIn route.splits (child path "splits") names route.path
                splits)
              (validate_matches-AllIn 0 route.matches (child path "matches") names route.path
                matches)),
        elim (Bool-cases (eqb (field_count checks is_plus route forbidden_route) 1)) [
          | inl e ↦ (eqb_iff (field_count checks is_plus route forbidden_route) 1).0 e
          | inr e ↦ absurd (ground (arith, rw e at h₇))
        ],
        splits,
        reference,
      )

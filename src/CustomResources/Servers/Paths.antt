-- ===== src/CustomResources/Servers/Paths.antt =====
-- Routes without errors: their paths and the choice that each makes.
use kubernetes_ingress.Prelude.{
  ℕ, suc, String, ◌≡◌, ◌≢◌, ◌⊎◌, refl, sym, subst, inl, inr, ◌==◌, eq_iff, Bool, true, false,
  Option, none, some, List, [], ◌∷◌, map, In, Distinct, append-[], arith, Bool-cases,
}
use kubernetes_ingress.Api.{Action, Split, Route}
use kubernetes_ingress.Parsing.Strings.{contains}
use kubernetes_ingress.Parsing.Members.{contains-In}
use kubernetes_ingress.Validation.Errors.{FieldPath, ErrorList, index}
use kubernetes_ingress.CustomResources.Checks.{Checks}
use kubernetes_ingress.CustomResources.Actions.{count_some}
use kubernetes_ingress.CustomResources.Routes.{field_count, count_splits}
use kubernetes_ingress.CustomResources.Servers.{add_path, validate_paths_from}

-- A path that is added without an error is new, and its route has none.
add_path-new :
    (errs : ErrorList) (p : String) (path : FieldPath) (seen : List String)
    → (add_path errs p path seen).0 ≡ []
    → (errs ≡ []) × ¬ (In p seen) × ((add_path errs p path seen).1 ≡ p ∷ seen)
unfolding add_path
add_path-new (e ∷ es) p path seen h = absurd (ground arith)
add_path-new [] p path seen h = elim (Bool-cases (contains seen p)) [
  | inl c ↦ absurd (ground (arith, rw c at h))
  | inr c ↦ (refl, (λ i. ground (arith, c, (contains-In seen p).1 i)), rw c refl)
]

validate_paths_from-new :
    (errors_of : Route → FieldPath → ErrorList) (i : ℕ) (seen : List String) (routes : List Route)
    (path : FieldPath)
    → validate_paths_from errors_of i seen routes path ≡ []
    → Distinct (map (λ r. r.path) routes)
      × ((p : String) → In p seen → ¬ (In p (map (λ r. r.path) routes)))
      × ((r : Route) → In r routes → (at : FieldPath) × (errors_of r at ≡ []))
unfolding validate_paths_from
validate_paths_from-new errors_of i seen [] path h = (tt, (λ p _ n. n), (λ r n. absurd n))
validate_paths_from-new errors_of i seen (r ∷ routes) path h =
    let added = add_path (errors_of r (index path i)) r.path (index path i) seen in
    let (e, rest) =
      append-[] added.0 (validate_paths_from errors_of (suc i) added.1 routes path) h in
    let (none_here, new, more) =
      add_path-new (errors_of r (index path i)) r.path (index path i) seen e in
    let (distinct, fresh, each) =
      validate_paths_from-new errors_of (suc i) added.1 routes path rest in
    let fresh' : (p : String) → In p (r.path ∷ seen) → ¬ (In p (map (λ r. r.path) routes)) =
      subst (λ ps. (p : String) → In p ps → ¬ (In p (map (λ r. r.path) routes))) more fresh in
    (
      (fresh' r.path (inl refl), distinct),
      (λ p at j. elim j [
        | inl z ↦ new (subst (λ y. In y seen) z at)
        | inr k ↦ fresh' p (inr at) k
      ]),
      (λ q at. elim at [
        | inl z ↦ (index path i, subst (λ y. errors_of y (index path i) ≡ []) (sym z) none_here)
        | inr k ↦ each q k
      ]),
    )

-- Routes without errors have different paths, and none has an error of its own.
pub validate_paths_from-Distinct :
    (errors_of : Route → FieldPath → ErrorList) (routes : List Route) (path : FieldPath)
    → validate_paths_from errors_of 0 [] routes path ≡ []
    → Distinct (map (λ r. r.path) routes)
      × ((r : Route) → In r routes → (at : FieldPath) × (errors_of r at ≡ []))
validate_paths_from-Distinct errors_of routes path h =
    let (distinct, _, each) = validate_paths_from-new errors_of 0 [] routes path h in
    (distinct, each)

-- A route that has exactly one of an action, splits and a reference to a VirtualServerRoute.
pub data ChoosesOne (r : Route) : Type 0 where
  by_action : (a : Action) → r.action ≡ some a → r.splits ≡ [] → r.route ≡ "" → ChoosesOne r
  by_splits : r.action ≡ none → r.splits ≢ [] → r.route ≡ "" → ChoosesOne r
  by_route : r.action ≡ none → r.splits ≡ [] → r.route ≢ "" → ChoosesOne r

pub field_count-ChoosesOne :
    (checks : Checks) (is_plus : Bool) (r : Route)
    → field_count checks is_plus r false ≡ 1
    → ChoosesOne r
unfolding field_count count_some count_splits
field_count-ChoosesOne checks is_plus r h =
    at_fields r.action r.splits refl refl (Bool-cases (r.route == ""))
  where
    at_fields :
        (action : Option Action) (splits : List Split)
        → r.action ≡ action
        → r.splits ≡ splits
        → (r.route == "") ≡ true ⊎ (r.route == "") ≡ false
        → ChoosesOne r
    at_fields none [] a s (inl t) = absurd (ground (arith, rw (a, s, t) at h))
    at_fields none [] a s (inr t) = by_route a s (λ e. ground (arith, t, (eq_iff r.route "").1 e))
    at_fields none (x ∷ xs) a s (inl t) =
        by_splits a (λ e. ground (arith, e, s)) ((eq_iff r.route "").0 t)
    at_fields none (x ∷ xs) a s (inr t) = absurd (ground (arith, rw (a, s, t) at h))
    at_fields (some b) [] a s (inl t) = by_action b a s ((eq_iff r.route "").0 t)
    at_fields (some b) [] a s (inr t) = absurd (ground (arith, rw (a, s, t) at h))
    at_fields (some b) (x ∷ xs) a s t = absurd (ground (arith, rw (a, s) at h))

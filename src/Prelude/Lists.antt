-- ===== src/Prelude/Lists.antt =====
-- Lists indexed by native numbers, membership by recursion, and the panic monad's fold.
use Prim.Native.Nat.{ℕ, zero, suc, ◌<◌}
use mathlib.Core.Path.{◌≡◌, refl, ap}
use mathlib.Core.Logic.{◌⊎◌, inl, inr}
use mathlib.Core.Bool.{Bool, true, false}
use mathlib.Core.List.{List, [], ◌∷◌, ◌++◌, map}
use mathlib.Core.Option
use mathlib.Core.Option.{Option, none, some}
use native.Mathlib.Omega.{arith}
use kubernetes_ingress.Prelude.Tests.{eqb, if◌then◌else◌}

module _ {ℓ} {A : Type ℓ} where
  abbrev pub length : List A → ℕ
  length [] = 0
  length (x ∷ xs) = suc (length xs)

  abbrev pub get_elem? : List A → ℕ → Option A
  get_elem? [] i = none
  get_elem? (x ∷ xs) zero = some x
  get_elem? (x ∷ xs) (suc i) = get_elem? xs i

  -- `append(s, x)`
  abbrev pub append : List A → A → List A
  append xs x = xs ++ x ∷ []

  -- A write through a pointer: the object at one position is replaced by its new state.
  unfoldable pub update : ℕ → (A → A) → List A → List A
  update i f [] = []
  update zero f (x ∷ xs) = f x ∷ xs
  update (suc i) f (x ∷ xs) = x ∷ update i f xs

  abbrev pub any : (A → Bool) → List A → Bool
  any p [] = false
  any p (x ∷ xs) = if p x then true else any p xs

  pub get_elem?-update :
      (f : A → A) (xs : List A) (i j : ℕ)
      → get_elem? (update i f xs) j
        ≡ (if eqb i j then Option.map f (get_elem? xs j) else get_elem? xs j)
  unfolding update
  get_elem?-update f [] i j = ground arith
  get_elem?-update f (x ∷ xs) zero zero = ground arith
  get_elem?-update f (x ∷ xs) zero (suc j) = ground arith
  get_elem?-update f (x ∷ xs) (suc i) zero = ground arith
  get_elem?-update f (x ∷ xs) (suc i) (suc j) = ground (arith, get_elem?-update f xs i j)

  pub get_elem?-append_one :
      (xs : List A) (x : A) (j : ℕ)
      → get_elem? (xs ++ x ∷ []) j ≡ (if eqb j (length xs) then some x else get_elem? xs j)
  get_elem?-append_one [] x zero = ground arith
  get_elem?-append_one [] x (suc j) = ground arith
  get_elem?-append_one (y ∷ xs) x zero = ground arith
  get_elem?-append_one (y ∷ xs) x (suc j) = ground (arith, get_elem?-append_one xs x j)

  -- An index at which something stands is in bounds.
  pub lt-length_of_some : (xs : List A) (j : ℕ) (x : A) → get_elem? xs j ≡ some x → j < length xs
  lt-length_of_some [] j x h = cc
  lt-length_of_some (y ∷ xs) zero x h = omega arith
  lt-length_of_some (y ∷ xs) (suc j) x h = omega (arith, lt-length_of_some xs j x h)

  pub get_elem?-in_bounds :
      (xs : List A) (j : ℕ) → j < length xs → (x : A) × (get_elem? xs j ≡ some x)
  get_elem?-in_bounds [] j h = elim h [ ]
  get_elem?-in_bounds (y ∷ xs) zero h = (y, refl)
  get_elem?-in_bounds (y ∷ xs) (suc j) h = get_elem?-in_bounds xs j (omega arith)

  pub length-update : (f : A → A) (xs : List A) (i : ℕ) → length (update i f xs) ≡ length xs
  unfolding update
  length-update f [] i = refl
  length-update f (x ∷ xs) zero = refl
  length-update f (x ∷ xs) (suc i) = ap suc (length-update f xs i)

  -- Writes that commute at one object commute through any two pointers.
  pub update_comm :
      (f g : A → A)
      → ((x : A) → f (g x) ≡ g (f x))
      → (i j : ℕ) (xs : List A) → update i f (update j g xs) ≡ update j g (update i f xs)
  unfolding update
  update_comm f g e i j [] = refl
  update_comm f g e zero zero (x ∷ xs) = ap (λ y. y ∷ xs) (e x)
  update_comm f g e zero (suc j) (x ∷ xs) = refl
  update_comm f g e (suc i) zero (x ∷ xs) = refl
  update_comm f g e (suc i) (suc j) (x ∷ xs) = ap (λ ys. x ∷ ys) (update_comm f g e i j xs)

module _ {ℓ κ} {A : Type ℓ} {B : Type κ} where
  -- A part of the objects that a write leaves alone.
  pub map-update :
      (p : A → B) (f : A → A)
      → ((x : A) → p (f x) ≡ p x)
      → (i : ℕ) (xs : List A) → map p (update i f xs) ≡ map p xs
  unfolding update
  map-update p f e i [] = refl
  map-update p f e zero (x ∷ xs) = ap (λ y. y ∷ map p xs) (e x)
  map-update p f e (suc i) (x ∷ xs) = ap (λ ys. p x ∷ ys) (map-update p f e i xs)

  pub get_elem?-map :
      (p : A → B) (xs : List A) (i : ℕ) → get_elem? (map p xs) i ≡ Option.map p (get_elem? xs i)
  get_elem?-map p [] i = refl
  get_elem?-map p (x ∷ xs) zero = refl
  get_elem?-map p (x ∷ xs) (suc i) = get_elem?-map p xs i

  pub map_append_one :
      (p : A → B) (xs : List A) (x : A) → map p (xs ++ x ∷ []) ≡ map p xs ++ p x ∷ []
  map_append_one p [] x = refl
  map_append_one p (y ∷ xs) x = ap (λ ys. p y ∷ ys) (map_append_one p xs x)

  -- Reading a nil pointer, an index out of range or a missing map entry as an object is a panic:
  -- `none`. A loop stops at the first panic.
  unfoldable pub fold_while : (B → A → Option B) → B → List A → Option B
  fold_while f s [] = some s
  fold_while f s (x ∷ xs) = elim (f s x) [ none ↦ none | some s' ↦ fold_while f s' xs ]

  -- The rule of invariants for such a loop, with the list of what was done.
  pub fold_while_inv {μ} :
      (P : List A → B → Type μ) (f : B → A → Option B)
      → ((todo : List A) (x : A) (s : B)
          → P (x ∷ todo) s
          → (s' : B) × (f s x ≡ some s') × P todo s')
      → (s : B) (xs : List A) → P xs s
      → (s' : B) × (fold_while f s xs ≡ some s') × P [] s'
  unfolding fold_while
  fold_while_inv P f step s [] h = (s, refl, h)
  fold_while_inv P f step s (x ∷ xs) h =
      let (s₁, e₁, h₁) = step xs x s h in
      let (s₂, e₂, h₂) = fold_while_inv P f step s₁ xs h₁ in (s₂, rw (e₁, fold_while) e₂, h₂)

infixl 5 ◌>>=◌
abbrev pub ◌>>=◌ {ℓ κ} : {A : Type ℓ} {B : Type κ} → Option A → (A → Option B) → Option B
none >>= f = none
some a >>= f = f a

-- A bind that returned.
pub >>=-some :
    {A B : Type 0} (o : Option A) (f : A → Option B) (b : B)
    → (o >>= f) ≡ some b
    → (a : A) × (o ≡ some a) × (f a ≡ some b)
>>=-some none f b h = cc
>>=-some (some a) f b h = (a, refl, h)

module _ {A : Type 0} where
  -- Membership that can be taken apart.
  abbrev pub In : A → List A → Type 0
  In a [] = ⊥
  In a (x ∷ xs) = (a ≡ x) ⊎ In a xs

  pub In-append_left : (a : A) (xs ys : List A) → In a xs → In a (xs ++ ys)
  In-append_left a [] ys h = absurd h
  In-append_left a (x ∷ xs) ys (inl e) = inl e
  In-append_left a (x ∷ xs) ys (inr h) = inr (In-append_left a xs ys h)

  pub In-append_right : (a : A) (xs ys : List A) → In a ys → In a (xs ++ ys)
  In-append_right a [] ys h = h
  In-append_right a (x ∷ xs) ys h = inr (In-append_right a xs ys h)

  pub In-append_cases : (a : A) (xs ys : List A) → In a (xs ++ ys) → In a xs ⊎ In a ys
  In-append_cases a [] ys h = inr h
  In-append_cases a (x ∷ xs) ys (inl e) = inl (inl e)
  In-append_cases a (x ∷ xs) ys (inr h) = elim (In-append_cases a xs ys h) [
    | inl l ↦ inl (inr l)
    | inr r ↦ inr r
  ]

  -- A concatenation is empty only if both lists are.
  pub append-[] : (xs ys : List A) → xs ++ ys ≡ [] → (xs ≡ []) × (ys ≡ [])
  append-[] [] ys h = (refl, h)
  append-[] (x ∷ xs) ys h = cc

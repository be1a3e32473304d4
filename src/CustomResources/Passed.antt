-- ===== src/CustomResources/Passed.antt =====
-- The tests of pkg/apis/configuration/validation that no error comes from.
use kubernetes_ingress.Prelude.{◌≡◌, refl, Bool, true, false, List, [], ◌∷◌, arith, if◌then◌else◌}

module _ {A : Type 0} where
  -- A test whose failure is an error.
  pub if-required : (b : Bool) (x : A) → (if b then [] else (x ∷ [])) ≡ [] → b ≡ true
  if-required true x h = refl
  if-required false x h = absurd (ground (arith, h))

  -- A test whose success is an error, and the errors without it.
  pub if-forbidden :
      (b : Bool) (x : A) (xs : List A) → (if b then (x ∷ []) else xs) ≡ [] → (b ≡ false) × (xs ≡ [])
  if-forbidden true x xs h = absurd (ground (arith, h))
  if-forbidden false x xs h = (refl, h)

-- ===== src/CustomResources/Common/Dollars.antt =====
-- The reads of `validateStringWithVariables` are in bounds.
use Prim.Native.Char.{code}
use kubernetes_ingress.Prelude.{
  String, ◌≡◌, ◌≢◌, refl, inl, inr, Bool, true, false, ◌&&◌, List, [], Option, none, some, arith,
  eqb, Bool-cases,
}
use kubernetes_ingress.Parsing.Strings.{ends_with, has_char}
use kubernetes_ingress.Validation.Errors.{FieldPath, ErrorList}
use kubernetes_ingress.CustomResources.Checks.{Checks}
use kubernetes_ingress.CustomResources.Common.{
  dollars_enclosed, checked_string_with_variables, validate_string_with_variables,
}

-- In a text that does not end with "$", the character after each "$" that the loop reads is there.
dollars_enclosed-returns :
    (s : String) → ends_with b'$' s ≡ false → (b : Bool) × (dollars_enclosed s ≡ some b)
unfolding dollars_enclosed ends_with
dollars_enclosed-returns String.[] h = (true, refl)
dollars_enclosed-returns (String.◌∷◌ c String.[]) h = (true, ground arith)
dollars_enclosed-returns (String.◌∷◌ c (String.◌∷◌ d s)) h =
    let (b, e) = dollars_enclosed-returns (String.◌∷◌ d s) h in
    elim (Bool-cases (eqb (code c) b'$')) [
      | inr n ↦ (b, rw n e)
      | inl y ↦ elim (Bool-cases (eqb (code d) b'{' && has_char b'}' s)) [
        | inl z ↦ (b, rw (y, z) e)
        | inr z ↦ (false, rw (y, z) refl)
      ]
    ]

checked_string_with_variables-ne :
    (checks : Checks) (is_plus : Bool) (str : String) (path : FieldPath)
    (special_vars valid_vars : List String)
    → checked_string_with_variables checks is_plus str path special_vars valid_vars ≢ none
unfolding checked_string_with_variables
checked_string_with_variables-ne checks is_plus str path special_vars valid_vars h =
    elim (Bool-cases (ends_with b'$' str)) [
      | inl e ↦ absurd (ground (arith, rw e at h))
      | inr e ↦
          let (b, r) = dollars_enclosed-returns str e in
          elim (Bool-cases b) [
            | inl t ↦ absurd (ground (arith, rw (e, r, t) at h))
            | inr f ↦ absurd (ground (arith, rw (e, r, f) at h))
          ]
    ]

returned :
    (o : Option ErrorList)
    → o ≢ none
    → o ≡ some (elim o as (λ _. ErrorList) [ some errs ↦ errs | none ↦ [] ])
returned none n = absurd (n refl)
returned (some errs) n = refl

-- For every text, `validateStringWithVariables` returns without a panic, and its errors are those that
-- the other validators report.
pub validate_string_with_variables-returns :
    (checks : Checks) (is_plus : Bool) (str : String) (path : FieldPath)
    (special_vars valid_vars : List String)
    → checked_string_with_variables checks is_plus str path special_vars valid_vars
      ≡ some (validate_string_with_variables checks is_plus str path special_vars valid_vars)
unfolding validate_string_with_variables
validate_string_with_variables-returns checks is_plus str path special_vars valid_vars =
    returned (checked_string_with_variables checks is_plus str path special_vars valid_vars)
      (checked_string_with_variables-ne checks is_plus str path special_vars valid_vars)

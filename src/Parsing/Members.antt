-- ===== src/Parsing/Members.antt =====
-- The test of membership against membership.
use kubernetes_ingress.Prelude.{
  String, ◌≡◌, ◌↔◌, sym, inl, inr, ◌==◌, eq_iff, true, List, [], ◌∷◌, In, arith, Bool-cases,
}
use kubernetes_ingress.Parsing.Strings.{contains}

pub contains-In : (xs : List String) (s : String) → (contains xs s ≡ true) ↔ In s xs
unfolding contains
contains-In [] s = (λ h. cc, λ h. absurd h)
contains-In (x ∷ xs) s =
    let ih = contains-In xs s in
    (
      λ h. elim (Bool-cases (x == s)) [
        | inl e ↦ inl (sym ((eq_iff x s).0 e))
        | inr e ↦ inr (ih.0 (ground (arith, h, e)))
      ],
      λ i. elim i [
        | inl e ↦ ground (arith, (eq_iff x s).1 (sym e))
        | inr j ↦ ground (arith, ih.1 j)
      ],
    )

-- ===== src/Validation/Minion.antt =====
-- What a minion that `validateMinionSpec` accepts looks like, and a master.
use kubernetes_ingress.Prelude.{
  String, ◌≡◌, ◌<◌, refl, Option, none, some, List, [], ◌∷◌, length, arith,
}
use kubernetes_ingress.Api.{Ingress, IngressRule, IngressPath}
use kubernetes_ingress.Validation.{validate_minion_spec}
use kubernetes_ingress.Validation.Errors.{FieldPath}

-- A minion without errors has no TLS section and one rule, with at least one path.
pub validate_minion_spec_sound :
    (ing : Ingress) (path : FieldPath)
    → validate_minion_spec ing path ≡ []
    → (ing.tls ≡ [])
      × ((r : IngressRule) × (paths : List IngressPath) × (ing.rules ≡ r ∷ [])
          × (r.http ≡ some paths)
          × (0 < length paths))
unfolding validate_minion_spec
validate_minion_spec_sound ing path h = at_rules ing.tls ing.rules refl refl
  where
    at_rules :
        (tls : List String) (rules : List IngressRule)
        → ing.tls ≡ tls
        → ing.rules ≡ rules
        → (ing.tls ≡ [])
          × ((r : IngressRule) × (paths : List IngressPath) × (ing.rules ≡ r ∷ [])
              × (r.http ≡ some paths)
              × (0 < length paths))
    at_rules [] (r ∷ []) et er = at_http r.http refl
      where
        at_http :
            (http : Option (List IngressPath))
            → r.http ≡ http
            → (ing.tls ≡ [])
              × ((r : IngressRule) × (paths : List IngressPath) × (ing.rules ≡ r ∷ [])
                  × (r.http ≡ some paths)
                  × (0 < length paths))
        at_http none eh = absurd (ground arith)
        at_http (some []) eh = absurd (ground arith)
        at_http (some (p ∷ paths)) eh = (et, (r, p ∷ paths, er, eh, ground arith))
    at_rules (t ∷ tls) rules et er = absurd (ground arith)
    at_rules [] [] et er = absurd (ground arith)
    at_rules [] (r ∷ r' ∷ rules) et er = absurd (ground arith)

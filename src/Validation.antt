-- ===== src/Validation.antt =====
-- internal/k8s/validation.go: the rules that the controller enforces on an Ingress.
pub mod Errors
pub mod Accepted
pub mod Annotations
pub mod Minion
pub mod Hosts
use mathlib.Core.List.{◌++◌}
use kubernetes_ingress.Prelude.{
  ℕ, suc, String, ◌==◌, Bool, none, some, List, [], ◌∷◌, length, any, ltb, eqb, if◌then◌else◌,
}
use kubernetes_ingress.Api.{IngressRule, Ingress, is_minion, is_master}
use Errors.{FieldPath, new_path, child, index, required, duplicate, too_many, ErrorList}
use Annotations.{validate_ingress_annotations}

-- The loop of `validateIngressSpec` over the rules from index `i`, with the hosts seen.
unfoldable pub validate_rules : FieldPath → ℕ → List String → List IngressRule → ErrorList
validate_rules path i all_hosts [] = []
validate_rules path i all_hosts (r ∷ rules) =
    let host_path = child (index (child path "rules") i) "host" in
    let seen = any (λ h. h == r.host) all_hosts in
    let all_hosts' =
      if r.host == "" then all_hosts else if seen then all_hosts else r.host ∷ all_hosts in
    let rest = validate_rules path (suc i) all_hosts' rules in
    if r.host == ""
    then required host_path "" ∷ rest
    else if seen
    then duplicate host_path r.host ∷ rest
    else rest

-- `validateIngressSpec`
unfoldable pub validate_ingress_spec : Ingress → FieldPath → ErrorList
unfolding validate_rules
validate_ingress_spec ing path = elim ing.rules [
  | [] ↦ required (child path "rules") "" ∷ []
  | r ∷ rules ↦ validate_rules path 0 [] (r ∷ rules)
]

abbrev paths_path : FieldPath → FieldPath
paths_path path = child (child (index (child path "rules") 0) "http") "paths"

-- `validateMasterSpec`
unfoldable pub validate_master_spec : Ingress → FieldPath → ErrorList
validate_master_spec ing path = elim ing.rules [
  | r ∷ [] ↦ elim r.http [
    | none ↦ []
    | some paths ↦
        if ltb 0 (length paths) then too_many (paths_path path) (length paths) 0 ∷ [] else []
  ]
  | rules ↦ too_many (child path "rules") (length rules) 1 ∷ []
]

-- `validateMinionSpec`
unfoldable pub validate_minion_spec : Ingress → FieldPath → ErrorList
validate_minion_spec ing path =
    let tls_errors : ErrorList =
      if ltb 0 (length ing.tls) then too_many (child path "tls") (length ing.tls) 0 ∷ [] else [] in
    tls_errors ++ elim ing.rules [
      | r ∷ [] ↦ elim r.http [
        | none ↦ required (paths_path path) "must include at least one path" ∷ []
        | some paths ↦
            if eqb (length paths) 0
            then required (paths_path path) "must include at least one path" ∷ []
            else []
      ]
      | rules ↦ too_many (child path "rules") (length rules) 1 ∷ []
    ]

-- `validateIngress`
unfoldable pub validate_ingress : Ingress → Bool → ErrorList
unfolding validate_ingress_annotations validate_ingress_spec validate_master_spec
    validate_minion_spec
validate_ingress ing is_plus =
    validate_ingress_annotations ing.meta.annotations is_plus (new_path "annotations")
    ++ (validate_ingress_spec ing (new_path "spec")
        ++ (if is_master ing
            then validate_master_spec ing (new_path "spec")
            else if is_minion ing
            then validate_minion_spec ing (new_path "spec")
            else []))

-- ===== src/Configuration/Minions.antt =====
-- `buildFullMinions`: the minions of one master, and which minion has each path. The pointers to
-- `FullMinion` objects are positions in the list of them, which is also the list returned. A nil
-- pointer that is read or an index out of range is a panic, `none`.
pub mod Returns
use kubernetes_ingress.Prelude.{
  ℕ, String, ◌++◌, ◌==◌, Bool, true, false, not, Option, none, some, List, [], ◌∷◌, StrMap, lookup,
  insert, sorted_values, length, append, get_elem?, update, fold_while, ◌>>=◌, if◌then◌else◌,
}
use kubernetes_ingress.Api.{Ingress, IngressPath, is_minion, get_resource_key}
use kubernetes_ingress.Resource.{FullMinion, new_full_minion, choose_object_meta_winner}
use kubernetes_ingress.Configuration.{Configuration}

-- `ing.Spec.Rules[0].Host`
unfoldable pub first_host : Ingress → Option String
first_host ing = elim ing.rules [ [] ↦ none | r ∷ _ ↦ some r.host ]

-- `ing.Spec.Rules[0].HTTP.Paths`
unfoldable pub first_paths : Ingress → Option (List IngressPath)
first_paths ing = elim ing.rules [ [] ↦ none | r ∷ _ ↦ r.http ]

-- The variables of the function: `fullMinions`, `childWarnings` and `paths`.
pub record MinionBuild : Type 0 where
  pub full_minions : List FullMinion
  pub child_warnings : StrMap (List String)
  pub paths : StrMap ℕ

-- `fm.ValidPaths[path] = valid`
unfoldable pub set_path : String → Bool → FullMinion → FullMinion
set_path path valid fm = record fm { valid_paths = insert path valid fm.valid_paths }

-- `childWarnings[key] = append(childWarnings[key], warning)`
unfoldable pub warn_child : String → String → StrMap (List String) → StrMap (List String)
warn_child key warning m =
    insert key (append (elim (lookup key m) [ none ↦ [] | some ws ↦ ws ]) warning) m

-- One turn of the loop over the paths of the minion at `a`.
unfoldable pub claim_path : ℕ → Ingress → MinionBuild → IngressPath → Option MinionBuild
claim_path a ing s p = elim (lookup p.path s.paths) [
  | none ↦ some (record s {
    paths = insert p.path a s.paths;
    full_minions = update a (set_path p.path true) s.full_minions;
  })
  | some h ↦ get_elem? s.full_minions h >>= λ holder.
      let warning = "path " ++ p.path ++ " is taken by another resource" in
      if not (choose_object_meta_winner holder.ingress.meta ing.meta)
      then some (record s {
        paths = insert p.path a s.paths;
        full_minions =
            update h (set_path p.path false) (update a (set_path p.path true) s.full_minions);
        child_warnings = warn_child (get_resource_key holder.ingress.meta) warning s.child_warnings;
      })
      else some (record s {
        child_warnings = warn_child (get_resource_key ing.meta) warning s.child_warnings;
      })
]

-- One turn of the loop over the Ingresses. A new minion is at the end of the list from the start,
-- since `append` puts it there as soon as its paths are done.
unfoldable pub add_minion : String → MinionBuild → Ingress → Option MinionBuild
unfolding first_host first_paths claim_path set_path warn_child new_full_minion fold_while update
add_minion master_host s ing =
    if not (is_minion ing)
    then some s
    else (first_host ing >>= λ host.
        if not (master_host == host)
        then some s
        else (first_paths ing >>= λ paths.
            fold_while (claim_path (length s.full_minions) ing)
              (record s { full_minions = append s.full_minions (new_full_minion ing) }) paths))

unfoldable pub build_full_minions :
    Configuration → String → Option (List FullMinion × StrMap (List String))
unfolding add_minion
build_full_minions c master_host =
    fold_while (add_minion master_host)
      (record { full_minions = []; child_warnings = []; paths = [] }) (sorted_values c.ingresses)
    >>= λ s. some (s.full_minions, s.child_warnings)

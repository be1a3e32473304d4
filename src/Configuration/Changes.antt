-- ===== src/Configuration/Changes.antt =====
-- `detectChangesInHosts`, `createResourceChanges` and `squashResourceChanges`: the changes of the
-- NGINX config that lead from the old hosts to the new ones.
pub mod Squash
pub mod SquashLoop
pub mod SquashOrder
pub mod Detect
pub mod Replaced
pub mod Deploy
pub mod Created
pub mod Explained
use mathlib.Core.List.{◌++◌}
use kubernetes_ingress.Prelude.{
  String, ◌==◌, Bool, true, false, not, Option, none, some, List, [], ◌∷◌, StrMap, lookup, insert,
  delete, get_sorted_keys, append, ◌>>=◌, if◌then◌else◌,
}
use kubernetes_ingress.Resource.{Resource, get_key_with_kind, is_equal}
use kubernetes_ingress.Configuration.{Operation, add_or_update, ResourceChange}

abbrev pub exists : {V : Type 0} → StrMap V → String → Bool
exists m k = elim (lookup k m) [ none ↦ false | some _ ↦ true ]

-- The keys of a list that are missing in a map.
unfoldable pub missing_in : StrMap Resource → List String → List String
missing_in m [] = []
missing_in m (h ∷ hs) = let rest = missing_in m hs in if exists m h then rest else h ∷ rest

-- The resource of a host changed; of two maps that both have the host.
unfoldable pub is_updated : StrMap Resource → StrMap Resource → String → Bool
is_updated old_hosts new_hosts h = elim (lookup h old_hosts) [
  | none ↦ false
  | some old_r ↦ elim (lookup h new_hosts) [ none ↦ false | some r ↦ not (is_equal old_r r) ]
]

unfoldable pub updated_of : StrMap Resource → StrMap Resource → List String → List String
updated_of old_hosts new_hosts [] = []
updated_of old_hosts new_hosts (h ∷ hs) =
    let rest = updated_of old_hosts new_hosts hs in
    if is_updated old_hosts new_hosts h then h ∷ rest else rest

-- `detectChangesInHosts`: the removed, the updated and the added hosts.
unfoldable pub detect_changes_in_hosts :
    StrMap Resource → StrMap Resource → List String × List String × List String
unfolding missing_in updated_of is_updated get_sorted_keys
detect_changes_in_hosts old_hosts new_hosts = (
  missing_in new_hosts (get_sorted_keys old_hosts),
  updated_of old_hosts new_hosts (get_sorted_keys new_hosts),
  missing_in old_hosts (get_sorted_keys new_hosts),
)

unfoldable pub change_of : Operation → Resource → ResourceChange
change_of op r = record { op = op; resource = r; error = "" }

-- The loop over removed hosts, and that over added ones: a change for each host's resource.
unfoldable pub changes_at : Operation → StrMap Resource → List String → Option (List ResourceChange)
unfolding change_of
changes_at op hosts [] = some []
changes_at op hosts (h ∷ hs) =
    lookup h hosts >>= λ r. changes_at op hosts hs >>= λ rest. some (change_of op r ∷ rest)

-- The delete changes of the loop over updated hosts: where the host went to another resource.
unfoldable pub replaced_at :
    StrMap Resource → StrMap Resource → List String → Option (List ResourceChange)
unfolding change_of get_key_with_kind
replaced_at hosts new_hosts [] = some []
replaced_at hosts new_hosts (h ∷ hs) = lookup h hosts >>= λ old_r. lookup h new_hosts >>= λ r.
    replaced_at hosts new_hosts hs >>= λ rest. some (
      if not (get_key_with_kind old_r == get_key_with_kind r)
      then change_of Operation.delete old_r ∷ rest
      else rest)

-- `createResourceChanges`: all deletes before all updates.
unfoldable pub create_resource_changes :
    StrMap Resource
    → List String
    → List String
    → List String
    → StrMap Resource
    → Option (List ResourceChange)
unfolding changes_at replaced_at
create_resource_changes hosts removed_hosts updated_hosts added_hosts new_hosts =
    changes_at Operation.delete hosts removed_hosts >>= λ removed.
    replaced_at hosts new_hosts updated_hosts >>= λ replaced.
    changes_at add_or_update new_hosts updated_hosts >>= λ updated.
    changes_at add_or_update new_hosts added_hosts >>= λ added.
    some ((removed ++ replaced) ++ (updated ++ added))

abbrev pub key_of : ResourceChange → String
key_of change = get_key_with_kind change.resource

-- `changesPerResource[key] = append(changesPerResource[key], c)`
unfoldable pub add_change :
    StrMap (List ResourceChange) → ResourceChange → StrMap (List ResourceChange)
unfolding get_key_with_kind
add_change m change =
    insert (key_of change)
      (append (elim (lookup (key_of change) m) [ none ↦ [] | some l ↦ l ]) change) m

-- `changesPerResource`
unfoldable pub changes_per_resource :
    StrMap (List ResourceChange) → List ResourceChange → StrMap (List ResourceChange)
unfolding add_change
changes_per_resource m [] = m
changes_per_resource m (change ∷ changes) = changes_per_resource (add_change m change) changes

-- `resChanges[len(resChanges)-1]`
unfoldable pub last : List ResourceChange → Option ResourceChange
last [] = none
last (change ∷ []) = some change
last (change ∷ next ∷ rest) = last (next ∷ rest)

-- The second loop, over the changes in their order; `deletes` and `updates` so far.
unfoldable pub squash_loop :
    StrMap (List ResourceChange)
    → List ResourceChange
    → List ResourceChange
    → List ResourceChange
    → Option (List ResourceChange)
unfolding last get_key_with_kind delete
squash_loop m deletes updates [] = some (deletes ++ updates)
squash_loop m deletes updates (change ∷ changes) = elim (lookup (key_of change) m) [
  | none ↦ squash_loop m deletes updates changes
  | some res_changes ↦ elim (last res_changes) [
    | none ↦ none
    | some squashed ↦ elim squashed.op [
      | Operation.delete ↦
          squash_loop (delete (key_of change) m) (append deletes squashed) updates changes
      | add_or_update ↦
          squash_loop (delete (key_of change) m) deletes (append updates squashed) changes
    ]
  ]
]

-- `squashResourceChanges`
unfoldable pub squash_resource_changes : List ResourceChange → Option (List ResourceChange)
unfolding changes_per_resource squash_loop
squash_resource_changes changes = squash_loop (changes_per_resource [] changes) [] [] changes

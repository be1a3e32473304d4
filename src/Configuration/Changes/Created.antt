-- ===== src/Configuration/Changes/Created.antt =====
-- What is in the changes of `createResourceChanges`, and why: the last change of a resource is an
-- update where a host of its own is new or changed, else a delete where it lost a host.
use mathlib.Core.List.{◌++◌}
use kubernetes_ingress.Prelude.{
  String, ◌≡◌, ◌≢◌, refl, inl, inr, true, false, Option, none, some, List, StrMap, lookup, arith,
  Option-cases, In, get_sorted_keys, In-sorted_keys, sorted_keys-In,
}
use kubernetes_ingress.Resource.{Resource, get_key_with_kind, is_equal}
use kubernetes_ingress.Resource.Equality.{is_equal-key}
use kubernetes_ingress.Configuration.{ResourceChange, Operation, add_or_update}
use kubernetes_ingress.Configuration.Changes.{
  missing_in, is_updated, updated_of, changes_at, replaced_at,
}
use kubernetes_ingress.Configuration.Changes.Squash.{final, final-append}
use kubernetes_ingress.Configuration.Changes.Detect.{
  missing_in-In, In-missing_in, updated_of-In, In-updated_of, is_updated-true, final-changes_at,
  changes_at-final,
}
use kubernetes_ingress.Configuration.Changes.Deploy.{Active}
use kubernetes_ingress.Configuration.Changes.Replaced.{final-replaced_at, replaced_at-final}

-- A host that the resource with the key lost.
abbrev pub Lost : StrMap Resource → StrMap Resource → String → Type 0
Lost old_hosts new_hosts k =
    (h : String) × (old_r : Resource) × (lookup h old_hosts ≡ some old_r)
    × (get_key_with_kind old_r ≡ k)
    × ((r : Resource) → lookup h new_hosts ≡ some r → get_key_with_kind r ≢ k)

-- A host of the resource with the key that is new, or whose resource is not equal to the old one.
abbrev pub Changed : StrMap Resource → StrMap Resource → String → Type 0
Changed old_hosts new_hosts k =
    (h : String) × (r : Resource) × (lookup h new_hosts ≡ some r)
    × (get_key_with_kind r ≡ k)
    × ((old_r : Resource) → lookup h old_hosts ≡ some old_r → is_equal old_r r ≡ false)

module _ (old_hosts new_hosts : StrMap Resource) where
  abbrev pub removed_hosts : List String
  removed_hosts = missing_in new_hosts (get_sorted_keys old_hosts)

  abbrev pub updated_hosts : List String
  updated_hosts = updated_of old_hosts new_hosts (get_sorted_keys new_hosts)

  abbrev pub added_hosts : List String
  added_hosts = missing_in old_hosts (get_sorted_keys new_hosts)

  pub removed_found :
      (h : String) → In h removed_hosts → (r : Resource) × (lookup h old_hosts ≡ some r)
  removed_found h i =
      sorted_keys-In old_hosts h (missing_in-In new_hosts (get_sorted_keys old_hosts) h i).0

  pub added_found : (h : String) → In h added_hosts → (r : Resource) × (lookup h new_hosts ≡ some r)
  added_found h i =
      sorted_keys-In new_hosts h (missing_in-In old_hosts (get_sorted_keys new_hosts) h i).0

  pub updated_found :
      (h : String)
      → In h updated_hosts
      → (old_r : Resource) × (r : Resource) × (lookup h old_hosts ≡ some old_r)
        × (lookup h new_hosts ≡ some r)
  updated_found h i =
      let (old_r, r, a, b, _) =
        is_updated-true old_hosts new_hosts h
          (updated_of-In old_hosts new_hosts (get_sorted_keys new_hosts) h i).1 in
      (old_r, r, a, b)

  abbrev pub Created :
      List ResourceChange → List ResourceChange → List ResourceChange → List ResourceChange → Type 0
  Created removed replaced updated added =
      (changes_at Operation.delete old_hosts removed_hosts ≡ some removed)
      × (replaced_at old_hosts new_hosts updated_hosts ≡ some replaced)
      × (changes_at add_or_update new_hosts updated_hosts ≡ some updated)
      × (changes_at add_or_update new_hosts added_hosts ≡ some added)

  pub final-adds :
      (k : String) (updated added : List ResourceChange) (c : ResourceChange)
      → changes_at add_or_update new_hosts updated_hosts ≡ some updated
      → changes_at add_or_update new_hosts added_hosts ≡ some added
      → final k (updated ++ added) ≡ some c
      → (c.op ≡ add_or_update) × Active new_hosts k
  final-adds k updated added c e3 e4 f = elim (Option-cases (final k added)) [
    | inl n ↦
        let (o, (h, r, _, a, key)) =
          final-changes_at add_or_update new_hosts updated_hosts updated k c e3
            (ground (arith, final-append k updated added)) in
        (o, (h, r, a, key))
    | inr (c', n) ↦
        let (o, (h, r, _, a, key)) =
          final-changes_at add_or_update new_hosts added_hosts added k c e4
            (ground (arith, final-append k updated added)) in
        (o, (h, r, a, key))
  ]

  pub final-deletes :
      (k : String) (removed replaced : List ResourceChange) (c : ResourceChange)
      → changes_at Operation.delete old_hosts removed_hosts ≡ some removed
      → replaced_at old_hosts new_hosts updated_hosts ≡ some replaced
      → final k (removed ++ replaced) ≡ some c
      → (c.op ≡ Operation.delete) × Lost old_hosts new_hosts k
  final-deletes k removed replaced c e1 e2 f = elim (Option-cases (final k replaced)) [
    | inl n ↦
        let (o, (h, r, i, a, key)) =
          final-changes_at Operation.delete old_hosts removed_hosts removed k c e1
            (ground (arith, final-append k removed replaced)) in
        let gone = (missing_in-In new_hosts (get_sorted_keys old_hosts) h i).1 in
        (o, (h, r, a, key, λ s b. absurd (ground arith)))
    | inr (c', n) ↦
        let (o, (h, old_r, r, _, a, b, key, key')) =
          final-replaced_at old_hosts new_hosts updated_hosts replaced k c e2
            (ground (arith, final-append k removed replaced)) in
        (o, (h, old_r, a, key, λ s b' e. key' (ground arith)))
  ]

  pub Changed-adds :
      (k : String) (updated added : List ResourceChange)
      → changes_at add_or_update new_hosts updated_hosts ≡ some updated
      → changes_at add_or_update new_hosts added_hosts ≡ some added
      → Changed old_hosts new_hosts k
      → (c : ResourceChange) × (final k (updated ++ added) ≡ some c)
  unfolding is_updated
  Changed-adds k updated added e3 e4 (h, r, b, key, differs) =
      let here = In-sorted_keys new_hosts h r b in
      elim (Option-cases (lookup h old_hosts)) [
        | inl n ↦
            let (c, f) =
              changes_at-final add_or_update new_hosts added_hosts added k e4
                (h, r, In-missing_in old_hosts (get_sorted_keys new_hosts) h here n, b, key) in
            (c, ground (arith, final-append k updated added))
        | inr (old_r, a) ↦
            let up : is_updated old_hosts new_hosts h ≡ true = ground (arith, differs old_r a) in
            let (c, f) = changes_at-final add_or_update new_hosts updated_hosts updated k e3 (
              h,
              r,
              In-updated_of old_hosts new_hosts (get_sorted_keys new_hosts) h here up,
              b,
              key,
            ) in
            either k updated added c f (final k added) refl
      ]
    where
      either :
          (k : String) (updated added : List ResourceChange) (c : ResourceChange)
          → final k updated ≡ some c
          → (o : Option ResourceChange) → final k added ≡ o
          → (c : ResourceChange) × (final k (updated ++ added) ≡ some c)
      either k updated added c f none e = (c, ground (arith, final-append k updated added))
      either k updated added c f (some c') e = (c', ground (arith, final-append k updated added))

  pub Lost-deletes :
      (k : String) (removed replaced : List ResourceChange)
      → changes_at Operation.delete old_hosts removed_hosts ≡ some removed
      → replaced_at old_hosts new_hosts updated_hosts ≡ some replaced
      → Lost old_hosts new_hosts k
      → final k (removed ++ replaced) ≢ none
  unfolding is_updated
  Lost-deletes k removed replaced e1 e2 (h, old_r, a, key, gone) z =
      elim (Option-cases (lookup h new_hosts)) [
        | inl n ↦
            let (c, f) = changes_at-final Operation.delete old_hosts removed_hosts removed k e1 (
              h,
              old_r,
              In-missing_in new_hosts (get_sorted_keys old_hosts) h
                  (In-sorted_keys old_hosts h old_r a) n,
              a,
              key,
            ) in
            absurd (ground (arith, final-append k removed replaced))
        | inr (r, b) ↦
            let differs : is_equal old_r r ≡ false =
              ground (arith, is_equal-key old_r r, gone r b) in
            let up : is_updated old_hosts new_hosts h ≡ true = ground arith in
            let (c, f) = replaced_at-final old_hosts new_hosts updated_hosts replaced k e2 (
              h,
              old_r,
              r,
              In-updated_of old_hosts new_hosts (get_sorted_keys new_hosts) h
                  (In-sorted_keys new_hosts h r b) up,
              a,
              b,
              key,
              gone r b,
            ) in
            absurd (ground (arith, final-append k removed replaced))
      ]

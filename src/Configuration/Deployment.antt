-- ===== src/Configuration/Deployment.antt =====
-- The changes that a rebuild reports, applied to the NGINX config of the old hosts, give that of the
-- new ones. (The comment at `Configuration` in configuration.go asks for this.)
use mathlib.Core.List.{◌++◌}
use kubernetes_ingress.Prelude.{
  String, ◌≡◌, refl, sym, ◌∙◌, ◌⊎◌, ◌↔◌, inl, inr, true, false, Option, none, some, List, StrMap,
  lookup, arith, Bool-cases, Option-cases, ◌==◌, eq_iff, subst,
}
use kubernetes_ingress.Resource.{Resource, get_key_with_kind, is_equal}
use kubernetes_ingress.Resource.Equality.{is_equal-key}
use kubernetes_ingress.Configuration.{ResourceChange, Operation, add_or_update}
use kubernetes_ingress.Configuration.Changes.{detect_changes_in_hosts, create_resource_changes}
use kubernetes_ingress.Configuration.Changes.Squash.{final}
use kubernetes_ingress.Configuration.Changes.SquashLoop.{squash-final}
use kubernetes_ingress.Configuration.Changes.Detect.{changes_at-total}
use kubernetes_ingress.Configuration.Changes.Replaced.{replaced_at-total}
use kubernetes_ingress.Configuration.Changes.Deploy.{
  Deployed, apply_changes, apply_changes-final, Active, Claims, IsConsistent,
}
use kubernetes_ingress.Configuration.Changes.Created.{
  Lost, Changed, removed_hosts, updated_hosts, added_hosts, Created, removed_found, updated_found,
  added_found,
}
use kubernetes_ingress.Configuration.Changes.Explained.{Explains, changes-Explains, is_equal-hosted}
use kubernetes_ingress.Configuration.Operations.{changes_between}

module _ (old_hosts new_hosts : StrMap Resource) where
  Created-changes :
      (removed replaced updated added : List ResourceChange)
      → Created old_hosts new_hosts removed replaced updated added
      → create_resource_changes old_hosts
          (removed_hosts old_hosts new_hosts)
          (updated_hosts old_hosts new_hosts)
          (added_hosts old_hosts new_hosts)
          new_hosts
        ≡ some ((removed ++ replaced) ++ (updated ++ added))
  unfolding create_resource_changes
  Created-changes removed replaced updated added (e1, e2, e3, e4) = rw (e1, e2, e3, e4)

  -- All hosts that are looked up are there.
  create-Explains :
      (cs : List ResourceChange) × (create_resource_changes old_hosts
          (removed_hosts old_hosts new_hosts)
          (updated_hosts old_hosts new_hosts)
          (added_hosts old_hosts new_hosts)
          new_hosts
        ≡ some cs)
      × Explains old_hosts new_hosts cs
  create-Explains =
      let (removed, e1) =
        changes_at-total Operation.delete old_hosts (removed_hosts old_hosts new_hosts)
          (removed_found old_hosts new_hosts) in
      let (replaced, e2) =
        replaced_at-total old_hosts new_hosts (updated_hosts old_hosts new_hosts)
          (updated_found old_hosts new_hosts) in
      let (updated, e3) =
        changes_at-total add_or_update new_hosts (updated_hosts old_hosts new_hosts)
          (λ h i. let (_, r, _, b) = updated_found old_hosts new_hosts h i in (r, b)) in
      let (added, e4) =
        changes_at-total add_or_update new_hosts (added_hosts old_hosts new_hosts)
          (added_found old_hosts new_hosts) in
      (
        (removed ++ replaced) ++ (updated ++ added),
        Created-changes removed replaced updated added (e1, e2, e3, e4),
        changes-Explains old_hosts new_hosts removed replaced updated added (e1, e2, e3, e4),
      )

  -- A resource with a host is changed, or it is equal to the old one at that host.
  Active-cases :
      (k : String) (h : String) (r : Resource)
      → lookup h new_hosts ≡ some r
      → get_key_with_kind r ≡ k
      → Changed old_hosts new_hosts k
        ⊎ ((old_r : Resource) × (lookup h old_hosts ≡ some old_r) × (is_equal old_r r ≡ true))
  Active-cases k h r b key = elim (Option-cases (lookup h old_hosts)) [
    | inl n ↦ inl (h, r, b, key, λ s a. absurd (ground arith))
    | inr (old_r, a) ↦ elim (Bool-cases (is_equal old_r r)) [
      | inl e ↦ inr (old_r, a, e)
      | inr e ↦ inl (h, r, b, key, λ s a'. ground arith)
    ]
  ]

  -- A resource is active again, or it lost a host.
  Active-new : (k : String) → Active old_hosts k → Active new_hosts k ⊎ Lost old_hosts new_hosts k
  Active-new k (h, r, a, key) = elim (Option-cases (lookup h new_hosts)) [
    | inl n ↦ inr (h, r, a, key, λ s b. absurd (ground arith))
    | inr (s, b) ↦ elim (Bool-cases (get_key_with_kind s == k)) [
      | inl e ↦ inl (h, s, b, (eq_iff (get_key_with_kind s) k).0 e)
      | inr e ↦ inr (h, r, a, key, λ s' b' z. ground (arith, eq_iff (get_key_with_kind s) k))
    ]
  ]

  module _ (cs : List ResourceChange) (ex : Explains old_hosts new_hosts cs) where
    none_to : (k : String) → final k cs ≡ none → Active old_hosts k → Active new_hosts k
    none_to k z act = elim (Active-new k act) [
      | inl new ↦ new
      | inr lost ↦ absurd (ex.Lost-final k lost z)
    ]

    none_from : (k : String) → final k cs ≡ none → Active new_hosts k → Active old_hosts k
    none_from k z (h, r, b, key) = elim (Active-cases k h r b key) [
      | inl ch ↦ let (c, f, _) = ex.Changed-update k ch in absurd (cc (f, z))
      | inr (old_r, a, e) ↦ (h, old_r, a, is_equal-key old_r r e ∙ key)
    ]

    deleted :
        IsConsistent old_hosts
        → IsConsistent new_hosts
        → (k : String) (c : ResourceChange) → final k cs ≡ some c
        → c.op ≡ Operation.delete
        → ¬ Active new_hosts k
    deleted co cn k c f o (h, r, b, key) = elim (Active-cases k h r b key) [
      | inl ch ↦ let (c', f', o') = ex.Changed-update k ch in cc (f, f', o, o')
      | inr (old_r, a, e) ↦
          let (h2, r2, a2, key2, gone) = ex.delete_lost k c f o in
          let same = co.unique h2 h r2 old_r a2 a (key2 ∙ sym (is_equal-key old_r r e ∙ key)) in
          let (s, b2, same_key) =
            is_equal-hosted old_hosts new_hosts h h2 old_r r co cn a b e
              (subst (λ x. Claims x h2) same (co.own h2 r2 a2)) in
          gone s b2 (same_key ∙ key)
    ]

    deploys :
        IsConsistent old_hosts
        → IsConsistent new_hosts
        → (out : List ResourceChange) → ((k : String) → final k out ≡ final k cs)
        → (d : Deployed) → ((k : String) → (d k ≡ true) ↔ Active old_hosts k)
        → (k : String) → (apply_changes out d k ≡ true) ↔ Active new_hosts k
    deploys co cn out same d now k =
        rw (apply_changes-final out d k, same k) (at_final (final k cs) refl)
      where
        at_final :
            (o : Option ResourceChange)
            → final k cs ≡ o
            → (elim o [
              | none ↦ d k
              | some c ↦ elim c.op [ Operation.delete ↦ false | add_or_update ↦ true ]
            ]
                ≡ true)
              ↔ Active new_hosts k
        at_final none z = (λ e. none_to k z ((now k).0 e), λ act. (now k).1 (none_from k z act))
        at_final (some c) z = at_op c c.op z refl
          where
            at_op :
                (c : ResourceChange) (op : Operation)
                → final k cs ≡ some c
                → c.op ≡ op
                → (elim op [ Operation.delete ↦ false | add_or_update ↦ true ] ≡ true)
                  ↔ Active new_hosts k
            at_op c Operation.delete f o = (λ e. cc, λ act. absurd (deleted co cn k c f o act))
            at_op c add_or_update f o = (λ e. ex.update_active k c f o, λ act. refl)

  -- The changes between any two maps of hosts are made.
  pub changes_between_returns :
      (changes : List ResourceChange) × (changes_between old_hosts new_hosts ≡ some changes)
  unfolding changes_between detect_changes_in_hosts
  changes_between_returns =
      let (cs, made, ex) = create-Explains in
      let (out, squashed, same) = squash-final cs in (out, rw made squashed)

  -- From consistent hosts to consistent hosts the changes are always made, and when they are applied
  -- in order to any NGINX config that has exactly the resources of the old hosts, the result has
  -- exactly the resources of the new hosts.
  pub changes_between-deploys :
      IsConsistent old_hosts
      → IsConsistent new_hosts
      → (changes : List ResourceChange) × (changes_between old_hosts new_hosts ≡ some changes)
        × ((d : Deployed)
            → ((k : String) → (d k ≡ true) ↔ Active old_hosts k)
            → (k : String) → (apply_changes changes d k ≡ true) ↔ Active new_hosts k)
  unfolding changes_between detect_changes_in_hosts
  changes_between-deploys co cn =
      let (cs, made, ex) = create-Explains in
      let (out, squashed, same) = squash-final cs in
      (out, rw made squashed, deploys cs ex co cn out same)

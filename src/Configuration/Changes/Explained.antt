-- ===== src/Configuration/Changes/Explained.antt =====
-- The changes of a rebuild lead from the config of the old hosts to that of the new ones.
use mathlib.Core.List.{◌++◌}
use kubernetes_ingress.Prelude.{
  String, ◌≡◌, ◌≢◌, refl, sym, ◌∙◌, ◌⊎◌, inl, inr, true, none, some, List, StrMap, lookup, arith,
  Option-cases,
}
use kubernetes_ingress.Resource.{
  Resource, full_ingress, full_virtual_server, FullIngress, FullVirtualServer, get_key_with_kind,
  is_equal,
}
use kubernetes_ingress.Resource.Equality.{is_equal-valid_hosts}
use kubernetes_ingress.Configuration.{ResourceChange, Operation, add_or_update}
use kubernetes_ingress.Configuration.Changes.Squash.{final, final-append}
use kubernetes_ingress.Configuration.Changes.Deploy.{Active, Claims, IsConsistent}
use kubernetes_ingress.Configuration.Changes.Created.{
  Lost, Changed, Created, final-adds, final-deletes, Changed-adds, Lost-deletes,
}

-- Why a change is there, and which changes must be.
pub record Explains (old_hosts new_hosts : StrMap Resource) (cs : List ResourceChange)
    : Type 0 where
  pub update_active :
      (k : String) (c : ResourceChange)
      → final k cs ≡ some c
      → c.op ≡ add_or_update
      → Active new_hosts k
  pub delete_lost :
      (k : String) (c : ResourceChange)
      → final k cs ≡ some c
      → c.op ≡ Operation.delete
      → Lost old_hosts new_hosts k
  pub Changed-update :
      (k : String)
      → Changed old_hosts new_hosts k
      → (c : ResourceChange) × (final k cs ≡ some c) × (c.op ≡ add_or_update)
  pub Lost-final : (k : String) → Lost old_hosts new_hosts k → final k cs ≢ none

module _ (old_hosts new_hosts : StrMap Resource)
    (removed replaced updated added : List ResourceChange)
    (created : Created old_hosts new_hosts removed replaced updated added) where
  abbrev pub all : List ResourceChange
  all = (removed ++ replaced) ++ (updated ++ added)

  final-all :
      (k : String) (c : ResourceChange)
      → final k all ≡ some c
      → ((c.op ≡ add_or_update) × Active new_hosts k)
        ⊎ ((c.op ≡ Operation.delete) × Lost old_hosts new_hosts k)
  final-all k c f = elim (Option-cases (final k (updated ++ added))) [
    | inl n ↦ inr (
        final-deletes old_hosts new_hosts k removed replaced c created.0 created.1
          (ground (arith, final-append k (removed ++ replaced) (updated ++ added))))
    | inr (c', n) ↦ inl (
        final-adds old_hosts new_hosts k updated added c created.2 created.3
          (ground (arith, final-append k (removed ++ replaced) (updated ++ added))))
  ]

  Changed-update :
      (k : String)
      → Changed old_hosts new_hosts k
      → (c : ResourceChange) × (final k all ≡ some c) × (c.op ≡ add_or_update)
  Changed-update k ch =
      let (c, f) = Changed-adds old_hosts new_hosts k updated added created.2 created.3 ch in
      let (o, _) = final-adds old_hosts new_hosts k updated added c created.2 created.3 f in
      (c, ground (arith, final-append k (removed ++ replaced) (updated ++ added)), o)

  Lost-final : (k : String) → Lost old_hosts new_hosts k → final k all ≢ none
  Lost-final k l z =
      Lost-deletes old_hosts new_hosts k removed replaced created.0 created.1 l
        (ground (arith, final-append k (removed ++ replaced) (updated ++ added)))

  pub changes-Explains : Explains old_hosts new_hosts all
  changes-Explains = record {
    update_active = λ k c f o. updates c o (final-all k c f);
    delete_lost = λ k c f o. deletes c o (final-all k c f);
    Changed-update = Changed-update;
    Lost-final = Lost-final;
  }
    where
      updates :
          {k : String} (c : ResourceChange)
          → c.op ≡ add_or_update
          → ((c.op ≡ add_or_update) × Active new_hosts k)
            ⊎ ((c.op ≡ Operation.delete) × Lost old_hosts new_hosts k)
          → Active new_hosts k
      updates c o (inl (_, a)) = a
      updates c o (inr (p, _)) = absurd (cc (o, p))

      deletes :
          {k : String} (c : ResourceChange)
          → c.op ≡ Operation.delete
          → ((c.op ≡ add_or_update) × Active new_hosts k)
            ⊎ ((c.op ≡ Operation.delete) × Lost old_hosts new_hosts k)
          → Lost old_hosts new_hosts k
      deletes c o (inl (p, _)) = absurd (cc (o, p))
      deletes c o (inr (_, l)) = l

is_equal-kinds :
    (f : FullIngress) (g : FullVirtualServer)
    → is_equal (full_ingress f) (full_virtual_server g) ≢ true
unfolding is_equal
is_equal-kinds f g e = cc

-- A resource that stayed equal at one of its hosts still has every host that it had.
pub is_equal-hosted :
    (old_hosts new_hosts : StrMap Resource) (h h' : String) (r r' : Resource)
    → IsConsistent old_hosts
    → IsConsistent new_hosts
    → lookup h old_hosts ≡ some r
    → lookup h new_hosts ≡ some r'
    → is_equal r r' ≡ true
    → Claims r h'
    → (s : Resource) × (lookup h' new_hosts ≡ some s) × (get_key_with_kind s ≡ get_key_with_kind r')
is_equal-hosted old_hosts new_hosts h h' (full_ingress f) (full_ingress g) co cn a b e claim =
    cn.hosted h h' (full_ingress g) b (is_equal-valid_hosts f g h' e claim)
is_equal-hosted old_hosts new_hosts h h' (full_virtual_server f) r' co cn a b e claim =
    (r', rw (claim ∙ sym (co.own h (full_virtual_server f) a)) b, refl)
is_equal-hosted old_hosts new_hosts h h' (full_ingress f) (full_virtual_server g) co cn a b e
      claim =
    absurd (is_equal-kinds f g e)

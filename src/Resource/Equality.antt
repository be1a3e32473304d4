-- ===== src/Resource/Equality.antt =====
-- What `IsEqual` of two resources tells: the same key, and for Ingresses the same valid hosts.
use kubernetes_ingress.Prelude.{
  String, ◌≡◌, inl, inr, Bool, true, Option, none, some, List, [], ◌∷◌, StrMap, lookup, keys, In,
  In-keys, arith, eq_iff,
}
use kubernetes_ingress.Api.{ObjectMeta, get_resource_key}
use kubernetes_ingress.Resource.{
  Resource, full_ingress, full_virtual_server, FullIngress, compare_object_metas,
  compare_object_metas_with_annotations, same_bool, all_keys, same_entry, deep_equal_maps, is_equal,
  get_key_with_kind,
}

pub all_keys_lem :
    (p : String → Bool) (ks : List String) (k : String)
    → all_keys p ks ≡ true
    → In k ks
    → p k ≡ true
unfolding all_keys
all_keys_lem p [] k h i = absurd i
all_keys_lem p (x ∷ ks) k h (inl e) = ground arith
all_keys_lem p (x ∷ ks) k h (inr i) = ground (arith, all_keys_lem p ks k)

same_entry-true : (o : Option Bool) → same_entry same_bool (some true) o ≡ true → o ≡ some true
unfolding same_entry same_bool
same_entry-true none h = cc
same_entry-true (some b) h = ground arith

pub deep_equal_maps-lookup :
    (m1 m2 : StrMap Bool) (k : String)
    → deep_equal_maps same_bool m1 m2 ≡ true
    → lookup k m1 ≡ some true
    → lookup k m2 ≡ some true
unfolding deep_equal_maps
deep_equal_maps-lookup m1 m2 k h e = same_entry-true (lookup k m2) (
    rw e at (
      all_keys_lem (λ k. same_entry same_bool (lookup k m1) (lookup k m2)) (keys m1) k
        (ground arith) (In-keys k m1 true e)))

compare_object_metas-key :
    (a b : ObjectMeta) → compare_object_metas a b ≡ true → get_resource_key a ≡ get_resource_key b
unfolding compare_object_metas get_resource_key
compare_object_metas-key a b h =
    ground (arith, eq_iff a.namespace b.namespace, eq_iff a.name b.name)

-- Two resources that `IsEqual` compares as equal have the same key with kind.
pub is_equal-key :
    (r s : Resource) → is_equal r s ≡ true → get_key_with_kind r ≡ get_key_with_kind s
unfolding is_equal get_key_with_kind compare_object_metas_with_annotations
is_equal-key (full_ingress f) (full_ingress g) h =
    ground (arith, compare_object_metas-key f.ingress.meta g.ingress.meta)
is_equal-key (full_virtual_server f) (full_virtual_server g) h =
    ground (arith, compare_object_metas-key f.virtual_server.meta g.virtual_server.meta)
is_equal-key (full_ingress f) (full_virtual_server g) h = cc
is_equal-key (full_virtual_server f) (full_ingress g) h = cc

-- Of two Ingress resources that `IsEqual` compares as equal, the second holds every host that the
-- first holds.
pub is_equal-valid_hosts :
    (f g : FullIngress) (host : String)
    → is_equal (full_ingress f) (full_ingress g) ≡ true
    → lookup host f.valid_hosts ≡ some true
    → lookup host g.valid_hosts ≡ some true
unfolding is_equal
is_equal-valid_hosts f g host h e =
    deep_equal_maps-lookup f.valid_hosts g.valid_hosts host (ground arith) e

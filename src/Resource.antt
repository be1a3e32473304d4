-- ===== src/Resource.antt =====
-- internal/k8s/configuration.go: the interface `Resource` and its two implementations, `FullIngress`
-- and `FullVirtualServer`. Methods that mutate their receiver return its new state.
pub mod Order
pub mod Equality
use kubernetes_ingress.Prelude.{
  String, ◌++◌, Bool, true, false, not, ◌&&◌, Option, none, some, List, [], ◌∷◌, StrMap, lookup,
  insert, keys, length, append, ltb, eqb, str_lt, ◌==◌, if◌then◌else◌,
}
use kubernetes_ingress.Api.{
  ObjectMeta, Ingress, VirtualServer, VirtualServerRoute, get_resource_key, ingress_kind,
  virtual_server_kind,
}

-- `chooseObjectMetaWinner`: the older object wins; of two objects created at once, the greater UID.
unfoldable pub choose_object_meta_winner : ObjectMeta → ObjectMeta → Bool
choose_object_meta_winner meta1 meta2 =
    if eqb meta1.creation_timestamp meta2.creation_timestamp
    then str_lt meta2.uid meta1.uid
    else ltb meta1.creation_timestamp meta2.creation_timestamp

-- `FullMinion`
pub record FullMinion : Type 0 where
  pub ingress : Ingress
  pub valid_paths : StrMap Bool

-- `FullIngress`
pub record FullIngress : Type 0 where
  pub ingress : Ingress
  pub is_master : Bool
  pub minions : List FullMinion
  pub valid_hosts : StrMap Bool
  pub warnings : List String
  pub child_warnings : StrMap (List String)

-- `FullVirtualServer`
pub record FullVirtualServer : Type 0 where
  pub virtual_server : VirtualServer
  pub virtual_server_routes : List VirtualServerRoute
  pub warnings : List String

-- `Resource`
pub data Resource : Type 0 where
  full_ingress : FullIngress → Resource
  full_virtual_server : FullVirtualServer → Resource

-- `NewRegularFullIngress`
unfoldable pub new_regular_full_ingress : Ingress → FullIngress
new_regular_full_ingress ing = record {
  ingress = ing;
  is_master = false;
  minions = [];
  valid_hosts = [];
  warnings = [];
  child_warnings = [];
}

-- `NewMasterFullIngress`
unfoldable pub new_master_full_ingress :
    Ingress → List FullMinion → StrMap (List String) → FullIngress
new_master_full_ingress ing minions child_warnings = record {
  ingress = ing;
  is_master = true;
  minions = minions;
  valid_hosts = [];
  warnings = [];
  child_warnings = child_warnings;
}

-- `NewFullMinion`
unfoldable pub new_full_minion : Ingress → FullMinion
new_full_minion ing = record { ingress = ing; valid_paths = [] }

-- `NewFullVirtualServer`
unfoldable pub new_full_virtual_server :
    VirtualServer → List VirtualServerRoute → List String → FullVirtualServer
new_full_virtual_server vs vsrs warnings = record {
  virtual_server = vs;
  virtual_server_routes = vsrs;
  warnings = warnings;
}

-- `GetObjectMeta`
unfoldable pub get_object_meta : Resource → ObjectMeta
get_object_meta (full_ingress fi) = fi.ingress.meta
get_object_meta (full_virtual_server fvs) = fvs.virtual_server.meta

-- `GetKeyWithKind`
unfoldable pub get_key_with_kind : Resource → String
get_key_with_kind (full_ingress fi) = ingress_kind ++ "/" ++ get_resource_key fi.ingress.meta
get_key_with_kind (full_virtual_server fvs) =
    virtual_server_kind ++ "/" ++ get_resource_key fvs.virtual_server.meta

-- `AcquireHost`
unfoldable pub acquire_host : String → Resource → Resource
acquire_host host (full_ingress fi) =
    full_ingress (record fi { valid_hosts = insert host true fi.valid_hosts })
acquire_host host (full_virtual_server fvs) = full_virtual_server fvs

-- `ReleaseHost`
unfoldable pub release_host : String → Resource → Resource
release_host host (full_ingress fi) =
    full_ingress (record fi { valid_hosts = insert host false fi.valid_hosts })
release_host host (full_virtual_server fvs) = full_virtual_server fvs

-- `Wins`
unfoldable pub wins : Resource → Resource → Bool
unfolding choose_object_meta_winner get_object_meta
wins r resource = choose_object_meta_winner (get_object_meta r) (get_object_meta resource)

-- `AddWarning`
unfoldable pub add_warning : String → Resource → Resource
add_warning warning (full_ingress fi) =
    full_ingress (record fi { warnings = append fi.warnings warning })
add_warning warning (full_virtual_server fvs) =
    full_virtual_server (record fvs { warnings = append fvs.warnings warning })

-- `compareObjectMetas`
unfoldable pub compare_object_metas : ObjectMeta → ObjectMeta → Bool
compare_object_metas meta1 meta2 =
    meta1.namespace == meta2.namespace
    && (meta1.name == meta2.name && eqb meta1.generation meta2.generation)

pub all_keys : (String → Bool) → List String → Bool
all_keys p [] = true
all_keys p (k ∷ ks) = p k && all_keys p ks

-- `reflect.DeepEqual` of two non-nil maps: every key of either has equal values in both.
module _ {V : Type 0} (same : V → V → Bool) where
  pub same_entry : Option V → Option V → Bool
  same_entry none none = true
  same_entry (some v) (some w) = same v w
  same_entry _ _ = false

  unfoldable pub deep_equal_maps : StrMap V → StrMap V → Bool
  unfolding same_entry all_keys
  deep_equal_maps m1 m2 =
      all_keys (λ k. same_entry (lookup k m1) (lookup k m2)) (keys m1)
      && all_keys (λ k. same_entry (lookup k m1) (lookup k m2)) (keys m2)

unfoldable pub same_bool : Bool → Bool → Bool
same_bool true b = b
same_bool false b = not b

-- ... and of two maps that may be nil.
unfoldable pub deep_equal_annotations : Option (StrMap String) → Option (StrMap String) → Bool
unfolding deep_equal_maps
deep_equal_annotations none none = true
deep_equal_annotations (some m1) (some m2) = deep_equal_maps ◌==◌ m1 m2
deep_equal_annotations _ _ = false

-- `compareObjectMetasWithAnnotations`
unfoldable pub compare_object_metas_with_annotations : ObjectMeta → ObjectMeta → Bool
compare_object_metas_with_annotations meta1 meta2 =
    compare_object_metas meta1 meta2 && deep_equal_annotations meta1.annotations meta2.annotations

-- The loops over the minions and the routes of two resources; the lengths were compared before.
unfoldable pub same_minions : List FullMinion → List FullMinion → Bool
same_minions [] [] = true
same_minions (m ∷ ms) (n ∷ ns) =
    compare_object_metas_with_annotations m.ingress.meta n.ingress.meta && same_minions ms ns
same_minions _ _ = false

unfoldable pub same_routes : List VirtualServerRoute → List VirtualServerRoute → Bool
same_routes [] [] = true
same_routes (r ∷ rs) (s ∷ ss) = compare_object_metas r.meta s.meta && same_routes rs ss
same_routes _ _ = false

-- `IsEqual`
unfoldable pub is_equal : Resource → Resource → Bool
is_equal (full_ingress fi) (full_ingress full) =
    if not (compare_object_metas_with_annotations fi.ingress.meta full.ingress.meta)
    then false
    else if not (deep_equal_maps same_bool fi.valid_hosts full.valid_hosts)
    then false
    else if not (same_bool fi.is_master full.is_master)
    then false
    else if not (eqb (length fi.minions) (length full.minions))
    then false
    else same_minions fi.minions full.minions
is_equal (full_virtual_server fvs) (full_virtual_server full) =
    if not (compare_object_metas fvs.virtual_server.meta full.virtual_server.meta)
    then false
    else if not (eqb (length fvs.virtual_server_routes) (length full.virtual_server_routes))
    then false
    else same_routes fvs.virtual_server_routes full.virtual_server_routes
is_equal _ _ = false

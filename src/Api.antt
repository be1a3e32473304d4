-- ===== src/Api.antt =====
-- The fields of the Kubernetes objects that the controller's core reads: `ObjectMeta` and
-- `networking/v1beta1` Ingress (fields of vendored types), and the custom resources VirtualServer and
-- VirtualServerRoute of pkg/apis/configuration/v1/types.go. A creation timestamp is the instant that
-- `metav1.Time` wraps, counted from a fixed origin.
mod Spec
pub mod Alpha
pub use Spec.*
use kubernetes_ingress.Prelude.{
  ℕ, String, Option, none, some, List, StrMap, lookup, Bool, false, ◌==◌, ◌++◌,
}

-- `annotations` is `none` for a nil map, which `reflect.DeepEqual` tells from an empty one.
pub record ObjectMeta : Type 0 where
  pub namespace : String
  pub name : String
  pub uid : String
  pub creation_timestamp : ℕ
  pub generation : ℕ
  pub annotations : Option (StrMap String)

-- A read of a nil map finds nothing.
unfoldable pub annotation : ObjectMeta → String → Option String
annotation meta key = elim meta.annotations [ none ↦ none | some m ↦ lookup key m ]

pub record IngressPath : Type 0 where
  pub path : String
  pub service_name : String

-- `http` is nil or a list of paths.
pub record IngressRule : Type 0 where
  pub host : String
  pub http : Option (List IngressPath)

-- `backend` is the default backend's service, `tls` the secret names of the TLS entries.
pub record Ingress : Type 0 where
  pub meta : ObjectMeta
  pub backend : Option String
  pub tls : List String
  pub rules : List IngressRule

pub record VirtualServer : Type 0 where
  pub meta : ObjectMeta
  pub host : String
  pub tls : Option Tls
  pub policies : List PolicyReference
  pub upstreams : List Upstream
  pub routes : List Route

pub record VirtualServerRoute : Type 0 where
  pub meta : ObjectMeta
  pub host : String
  pub upstreams : List Upstream
  pub subroutes : List Route

-- An object of the configuration, as the problems point to it.
pub data Object : Type 0 where
  ingress_object : Ingress → Object
  virtual_server_object : VirtualServer → Object
  virtual_server_route_object : VirtualServerRoute → Object

-- `getResourceKey`
unfoldable pub get_resource_key : ObjectMeta → String
get_resource_key meta = meta.namespace ++ "/" ++ meta.name

-- `getResourceKeyWithKind`
unfoldable pub get_resource_key_with_kind : String → ObjectMeta → String
get_resource_key_with_kind kind meta = kind ++ "/" ++ meta.namespace ++ "/" ++ meta.name

abbrev pub ingress_kind : String
ingress_kind = "Ingress"

abbrev pub virtual_server_kind : String
virtual_server_kind = "VirtualServer"

abbrev pub virtual_server_route_kind : String
virtual_server_route_kind = "VirtualServerRoute"

abbrev pub mergeable_ingress_type_annotation : String
mergeable_ingress_type_annotation = "nginx.org/mergeable-ingress-type"

-- A Go map read yields "" for a key that is missing.
unfoldable pub has_mergeable_type : String → Ingress → Bool
unfolding annotation
has_mergeable_type kind ing = elim (annotation ing.meta mergeable_ingress_type_annotation) [
  | none ↦ false
  | some v ↦ v == kind
]

-- `isMinion`
unfoldable pub is_minion : Ingress → Bool
unfolding has_mergeable_type
is_minion ing = has_mergeable_type "minion" ing

-- `isMaster`
unfoldable pub is_master : Ingress → Bool
unfolding has_mergeable_type
is_master ing = has_mergeable_type "master" ing

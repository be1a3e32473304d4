-- ===== src/Configuration/Hosts/Effects.antt =====
-- What the calls of `buildHostsAndResources` do to a heap of resources: the object behind a resource
-- stays, and the marks of valid hosts change.
use kubernetes_ingress.Prelude.{
  ℕ, String, ◌++◌, ◌≡◌, refl, Bool, true, false, ◌&&◌, Option, none, some, List, lookup,
  lookup-insert, arith, ◌==◌, eqb, if◌then◌else◌, get_elem?, update, get_elem?-update, append,
  get_elem?-append_one, length, lt-length_of_some, Option-cases, inl, inr, eqb_iff, ◌<◌,
}
use kubernetes_ingress.Api.{
  ObjectMeta, Ingress, VirtualServer, get_resource_key, ingress_kind, virtual_server_kind,
}
use kubernetes_ingress.Resource.{
  Resource, full_ingress, full_virtual_server, get_object_meta, get_key_with_kind, acquire_host,
  release_host, add_warning, wins, choose_object_meta_winner,
}

-- The object that a resource was made of.
pub data Origin : Type 0 where
  from_ingress : Ingress → Origin
  from_virtual_server : VirtualServer → Origin

unfoldable pub origin : Resource → Origin
origin (full_ingress fi) = from_ingress fi.ingress
origin (full_virtual_server fvs) = from_virtual_server fvs.virtual_server

abbrev pub origin_meta : Origin → ObjectMeta
origin_meta (from_ingress i) = i.meta
origin_meta (from_virtual_server v) = v.meta

unfoldable pub origin_key : Origin → String
origin_key (from_ingress i) = ingress_kind ++ "/" ++ get_resource_key i.meta
origin_key (from_virtual_server v) = virtual_server_kind ++ "/" ++ get_resource_key v.meta

abbrev pub is_ingress : Origin → Bool
is_ingress (from_ingress i) = true
is_ingress (from_virtual_server v) = false

-- The host is marked as valid.
unfoldable pub marked : Resource → String → Bool
marked (full_ingress fi) h = elim (lookup h fi.valid_hosts) [ none ↦ false | some b ↦ b ]
marked (full_virtual_server fvs) h = false

pub get_object_meta-origin : (r : Resource) → get_object_meta r ≡ origin_meta (origin r)
unfolding get_object_meta origin
get_object_meta-origin (full_ingress fi) = refl
get_object_meta-origin (full_virtual_server fvs) = refl

pub get_key_with_kind-origin : (r : Resource) → get_key_with_kind r ≡ origin_key (origin r)
unfolding get_key_with_kind origin origin_key
get_key_with_kind-origin (full_ingress fi) = refl
get_key_with_kind-origin (full_virtual_server fvs) = refl

origin-acquire_host : (host : String) (r : Resource) → origin (acquire_host host r) ≡ origin r
unfolding acquire_host origin
origin-acquire_host host (full_ingress fi) = refl
origin-acquire_host host (full_virtual_server fvs) = refl

origin-release_host : (host : String) (r : Resource) → origin (release_host host r) ≡ origin r
unfolding release_host origin
origin-release_host host (full_ingress fi) = refl
origin-release_host host (full_virtual_server fvs) = refl

origin-add_warning : (w : String) (r : Resource) → origin (add_warning w r) ≡ origin r
unfolding add_warning origin
origin-add_warning w (full_ingress fi) = refl
origin-add_warning w (full_virtual_server fvs) = refl

marked-acquire_host :
    (host h : String) (r : Resource)
    → marked (acquire_host host r) h
      ≡ (if is_ingress (origin r) && host == h then true else marked r h)
unfolding acquire_host marked origin
marked-acquire_host host h (full_ingress fi) =
    ground (arith, lookup-insert host h true fi.valid_hosts)
marked-acquire_host host h (full_virtual_server fvs) = refl

marked-release_host :
    (host h : String) (r : Resource)
    → marked (release_host host r) h ≡ (if host == h then false else marked r h)
unfolding release_host marked
marked-release_host host h (full_ingress fi) =
    ground (arith, lookup-insert host h false fi.valid_hosts)
marked-release_host host h (full_virtual_server fvs) = ground arith

marked-add_warning : (w h : String) (r : Resource) → marked (add_warning w r) h ≡ marked r h
unfolding add_warning marked
marked-add_warning w h (full_ingress fi) = refl
marked-add_warning w h (full_virtual_server fvs) = refl

-- The object and a mark of the resource at an address.
unfoldable pub origin_at : List Resource → ℕ → Option Origin
origin_at heap a = elim (get_elem? heap a) [ none ↦ none | some r ↦ some (origin r) ]

unfoldable pub marked_at : List Resource → ℕ → String → Bool
marked_at heap a h = elim (get_elem? heap a) [ none ↦ false | some r ↦ marked r h ]

pub origin_at-update :
    (f : Resource → Resource)
    → ((r : Resource) → origin (f r) ≡ origin r)
    → (heap : List Resource) (a b : ℕ) → origin_at (update a f heap) b ≡ origin_at heap b
unfolding origin_at
origin_at-update f keeps heap a b = elim (Option-cases (get_elem? heap b)) [
  | inl n ↦ ground (arith, get_elem?-update f heap a b)
  | inr (r, e) ↦ ground (arith, get_elem?-update f heap a b, keeps r)
]

pub origin_at-acquire :
    (heap : List Resource) (a b : ℕ) (host : String)
    → origin_at (update a (acquire_host host) heap) b ≡ origin_at heap b
origin_at-acquire heap a b host =
    origin_at-update (acquire_host host) (origin-acquire_host host) heap a b

pub origin_at-release :
    (heap : List Resource) (a b : ℕ) (host : String)
    → origin_at (update a (release_host host) heap) b ≡ origin_at heap b
origin_at-release heap a b host =
    origin_at-update (release_host host) (origin-release_host host) heap a b

pub origin_at-warn :
    (heap : List Resource) (a b : ℕ) (w : String)
    → origin_at (update a (add_warning w) heap) b ≡ origin_at heap b
origin_at-warn heap a b w = origin_at-update (add_warning w) (origin-add_warning w) heap a b

pub marked_at-acquire :
    (heap : List Resource) (a b : ℕ) (host h : String) (o : Origin)
    → origin_at heap a ≡ some o
    → marked_at (update a (acquire_host host) heap) b h
      ≡ (if eqb a b && (is_ingress o && host == h) then true else marked_at heap b h)
unfolding origin_at marked_at
marked_at-acquire heap a b host h o at = elim (Option-cases (get_elem? heap b)) [
  | inl n ↦ ground (arith, eqb_iff a b, get_elem?-update (acquire_host host) heap a b)
  | inr (r, e) ↦ ground (
    arith,
    eqb_iff a b,
    get_elem?-update (acquire_host host) heap a b,
    marked-acquire_host host h r,
  )
]

pub marked_at-release :
    (heap : List Resource) (a b : ℕ) (host h : String)
    → marked_at (update a (release_host host) heap) b h
      ≡ (if eqb a b && host == h then false else marked_at heap b h)
unfolding marked_at
marked_at-release heap a b host h = elim (Option-cases (get_elem? heap b)) [
  | inl n ↦ ground (arith, get_elem?-update (release_host host) heap a b)
  | inr (r, e) ↦
      ground (arith, get_elem?-update (release_host host) heap a b, marked-release_host host h r)
]

pub marked_at-warn :
    (heap : List Resource) (a b : ℕ) (w h : String)
    → marked_at (update a (add_warning w) heap) b h ≡ marked_at heap b h
unfolding marked_at
marked_at-warn heap a b w h = elim (Option-cases (get_elem? heap b)) [
  | inl n ↦ ground (arith, get_elem?-update (add_warning w) heap a b)
  | inr (r, e) ↦ ground (arith, get_elem?-update (add_warning w) heap a b, marked-add_warning w h r)
]

pub origin_at-append :
    (heap : List Resource) (r : Resource) (b : ℕ)
    → origin_at (append heap r) b
      ≡ (if eqb b (length heap) then some (origin r) else origin_at heap b)
unfolding origin_at
origin_at-append heap r b = ground (arith, get_elem?-append_one heap r b)

pub marked_at-append :
    (heap : List Resource) (r : Resource) (b : ℕ) (h : String)
    → marked_at (append heap r) b h
      ≡ (if eqb b (length heap) then marked r h else marked_at heap b h)
unfolding marked_at
marked_at-append heap r b h = ground (arith, get_elem?-append_one heap r b)

pub origin_at-bound :
    (heap : List Resource) (a : ℕ) (o : Origin) → origin_at heap a ≡ some o → a < length heap
unfolding origin_at
origin_at-bound heap a o e = elim (Option-cases (get_elem? heap a)) [
  | inl n ↦ absurd (ground arith)
  | inr (r, g) ↦ lt-length_of_some heap a r g
]

pub origin_at-get :
    (heap : List Resource) (a : ℕ) (o : Origin)
    → origin_at heap a ≡ some o
    → (r : Resource) × (get_elem? heap a ≡ some r) × (origin r ≡ o)
unfolding origin_at
origin_at-get heap a o e = elim (Option-cases (get_elem? heap a)) [
  | inl n ↦ absurd (ground arith)
  | inr (r, g) ↦ (r, g, ground arith)
]

pub wins-origin :
    (r s : Resource)
    → wins r s ≡ choose_object_meta_winner (origin_meta (origin r)) (origin_meta (origin s))
unfolding wins
wins-origin r s = rw (get_object_meta-origin r, get_object_meta-origin s)

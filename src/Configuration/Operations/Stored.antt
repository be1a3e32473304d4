-- ===== src/Configuration/Operations/Stored.antt =====
-- What the operations do to the stored objects.
use kubernetes_ingress.Prelude.{
  String, ◌≡◌, refl, Bool, true, false, Option, none, some, StrMap, lookup, delete, arith, ◌==◌,
  eq_iff, lookup-delete, lookup-insert, Bool-cases, subst, ◌∙◌, inl, inr,
}
use kubernetes_ingress.Api.{
  Ingress, VirtualServer, VirtualServerRoute, ingress_object, virtual_server_object,
  virtual_server_route_object, get_resource_key,
}
use kubernetes_ingress.Validation.Errors.{ErrorList}
use kubernetes_ingress.Configuration.{Configuration}
use kubernetes_ingress.Configuration.Operations.{
  store, store_ingress, ingress_error, store_virtual_server, store_virtual_server_route,
}

-- Every stored object is under its own key, has the right class and no validation error.
pub record IsValid (aggregate : ErrorList → String) (c : Configuration) : Type 0 where
  pub ingress :
      (k : String) (ing : Ingress)
      → lookup k c.ingresses ≡ some ing
      → (get_resource_key ing.meta ≡ k)
        × (c.has_correct_ingress_class (ingress_object ing) ≡ true)
        × (ingress_error aggregate ing c.is_plus ≡ none)
  pub virtual_server :
      (k : String) (vs : VirtualServer)
      → lookup k c.virtual_servers ≡ some vs
      → (get_resource_key vs.meta ≡ k)
        × (c.has_correct_ingress_class (virtual_server_object vs) ≡ true)
        × (c.virtual_server_validator.validate_virtual_server vs ≡ none)
  pub route :
      (k : String) (vsr : VirtualServerRoute)
      → lookup k c.virtual_server_routes ≡ some vsr
      → (get_resource_key vsr.meta ≡ k)
        × (c.has_correct_ingress_class (virtual_server_route_object vsr) ≡ true)
        × (c.virtual_server_validator.validate_virtual_server_route vsr ≡ none)

-- What a stored value satisfies, for any of the three maps.
store-lookup :
    {V : Type 0} (P Q : V → Type 0) (right_class : Bool) (error : Option String) (key : String)
    (v : V) (m : StrMap V)
    → (right_class ≡ true → P v)
    → (error ≡ none → Q v)
    → (key_of : V → String) → key_of v ≡ key
    → ((k : String) (w : V) → lookup k m ≡ some w → (key_of w ≡ k) × P w × Q w)
    → (k : String) (w : V) → lookup k (store right_class error key v m) ≡ some w
    → (key_of w ≡ k) × P w × Q w
unfolding store
store-lookup P Q false e key v m p q key_of own h k w l =
    h k w (ground (arith, lookup-delete key k m))
store-lookup P Q true (some e) key v m p q key_of own h k w l =
    h k w (ground (arith, lookup-delete key k m))
store-lookup P Q true none key v m p q key_of own h k w l = elim (Bool-cases (key == k)) [
  | inl e ↦
      let same : v ≡ w = ground (arith, lookup-insert key k v m) in
      subst (λ x. (key_of x ≡ k) × P x × Q x) same (own ∙ (eq_iff key k).0 e, p refl, q refl)
  | inr e ↦ h k w (ground (arith, lookup-insert key k v m))
]

delete-lookup :
    {V : Type 0} (key k : String) (w : V) (m : StrMap V)
    → lookup k (delete key m) ≡ some w
    → lookup k m ≡ some w
delete-lookup key k w m l = ground (arith, lookup-delete key k m)

module _ (aggregate : ErrorList → String) (c : Configuration) (valid : IsValid aggregate c) where
  pub store_ingress-IsValid : (ing : Ingress) → IsValid aggregate (store_ingress aggregate ing c)
  unfolding store_ingress
  store_ingress-IsValid ing = record {
    ingress =
        store-lookup (λ i. c.has_correct_ingress_class (ingress_object i) ≡ true)
          (λ i. ingress_error aggregate i c.is_plus ≡ none)
          (c.has_correct_ingress_class (ingress_object ing)) (ingress_error aggregate ing c.is_plus)
          (get_resource_key ing.meta) ing c.ingresses (λ a. a) (λ a. a)
          (λ i. get_resource_key i.meta) refl valid.ingress;
    virtual_server = valid.virtual_server;
    route = valid.route;
  }

  pub store_virtual_server-IsValid :
      (vs : VirtualServer) → IsValid aggregate (store_virtual_server vs c)
  unfolding store_virtual_server
  store_virtual_server-IsValid vs = record {
    ingress = valid.ingress;
    virtual_server =
        store-lookup (λ v. c.has_correct_ingress_class (virtual_server_object v) ≡ true)
          (λ v. c.virtual_server_validator.validate_virtual_server v ≡ none)
          (c.has_correct_ingress_class (virtual_server_object vs))
          (c.virtual_server_validator.validate_virtual_server vs) (get_resource_key vs.meta) vs
          c.virtual_servers (λ a. a) (λ a. a) (λ v. get_resource_key v.meta) refl
          valid.virtual_server;
    route = valid.route;
  }

  pub store_virtual_server_route-IsValid :
      (vsr : VirtualServerRoute) → IsValid aggregate (store_virtual_server_route vsr c)
  unfolding store_virtual_server_route
  store_virtual_server_route-IsValid vsr = record {
    ingress = valid.ingress;
    virtual_server = valid.virtual_server;
    route =
        store-lookup (λ v. c.has_correct_ingress_class (virtual_server_route_object v) ≡ true)
          (λ v. c.virtual_server_validator.validate_virtual_server_route v ≡ none)
          (c.has_correct_ingress_class (virtual_server_route_object vsr))
          (c.virtual_server_validator.validate_virtual_server_route vsr) (get_resource_key vsr.meta)
          vsr c.virtual_server_routes (λ a. a) (λ a. a) (λ v. get_resource_key v.meta) refl
          valid.route;
  }

  pub delete_ingress-IsValid :
      (key : String) → IsValid aggregate (record c { ingresses = delete key c.ingresses })
  delete_ingress-IsValid key = record {
    ingress = λ k ing l. valid.ingress k ing (delete-lookup key k ing c.ingresses l);
    virtual_server = valid.virtual_server;
    route = valid.route;
  }

  pub delete_virtual_server-IsValid :
      (key : String)
      → IsValid aggregate (record c { virtual_servers = delete key c.virtual_servers })
  delete_virtual_server-IsValid key = record {
    ingress = valid.ingress;
    virtual_server =
        λ k vs l. valid.virtual_server k vs (delete-lookup key k vs c.virtual_servers l);
    route = valid.route;
  }

  pub delete_virtual_server_route-IsValid :
      (key : String)
      → IsValid aggregate (record c { virtual_server_routes = delete key c.virtual_server_routes })
  delete_virtual_server_route-IsValid key = record {
    ingress = valid.ingress;
    virtual_server = valid.virtual_server;
    route = λ k vsr l. valid.route k vsr (delete-lookup key k vsr c.virtual_server_routes l);
  }

-- ===== src/Tests/Cafes.antt =====
-- A VirtualServer with its VirtualServerRoute, through the validation.
use kubernetes_ingress.Prelude.{
  ◌≤◌, pos, negsuc, leq, String, ◌≡◌, ◌≢◌, refl, inl, inr, true, false, ◌&&◌, none, some, List, [],
  ◌∷◌, In, length, arith, eq_iff, values_at, lookup, if◌then◌else◌,
}
use kubernetes_ingress.Api.{
  get_resource_key, Upstream, Action, Split, Route, VirtualServer, VirtualServerRoute,
}
use kubernetes_ingress.Validation.Errors.{new_path}
use kubernetes_ingress.CustomResources.Checks.{Checks}
use kubernetes_ingress.CustomResources.Servers.{
  new_virtual_server_validator, validate_virtual_server,
  validate_virtual_server_route_for_virtual_server,
}
use kubernetes_ingress.CustomResources.Servers.Accepted.{
  IsWellFormed, validate_virtual_server-IsWellFormed,
}
use kubernetes_ingress.CustomResources.Servers.Subroutes.{
  IsSubrouteOf, validate_virtual_server_route-IsSubrouteOf,
}
use kubernetes_ingress.CustomResources.Servers.Stored.{Reachable-IsWellFormed}
use kubernetes_ingress.CustomResources.Common.{
  dollars_enclosed, checked_string_with_variables, validate_string_with_variables,
}
use kubernetes_ingress.CustomResources.Common.Dollars.{validate_string_with_variables-returns}
use kubernetes_ingress.CustomResources.Routes.{validate_splits}
use kubernetes_ingress.CustomResources.Routes.Weights.{
  IsRangeCheck, IsWeight, sum_weights, validate_splits-weights,
}
use kubernetes_ingress.CustomResources.Upstreams.{validate_upstreams}
use kubernetes_ingress.CustomResources.Upstreams.Plus.{
  IsOpenSource, validate_upstreams-IsOpenSource,
}
use kubernetes_ingress.Parsing.{ok}
use kubernetes_ingress.Parsing.Signed.{parse_int64}
use kubernetes_ingress.Configuration.{Configuration, VirtualServerValidator, new_configuration}
use kubernetes_ingress.Configuration.Hosts.{build_virtual_server_routes}
use kubernetes_ingress.Configuration.Operations.{
  Outcome, add_or_update_virtual_server_route, add_or_update_virtual_server,
}
use kubernetes_ingress.Configuration.Operations.Reachable.{
  Reachable, start, step, handle, route_updated, virtual_server_updated,
}
use kubernetes_ingress.Tests.{aggregate, cafe, coffee, cafe_meta}

-- Checks that know ranges alone.
abbrev pub ranges : Checks
ranges = record {
  is_dns1123_subdomain = λ s. [];
  is_dns1123_label = λ s. [];
  is_dns1035_label = λ s. [];
  is_http_header_name = λ s. [];
  is_qualified_name = λ s. [];
  is_valid_label_value = λ s. [];
  is_valid_port_num =
      λ n. if leq (pos 1) n && leq n (pos 65535) then [] else "must be between 1 and 65535" ∷ [];
  is_in_range = λ v lo hi. if leq lo v && leq v hi then [] else "must be in the range" ∷ [];
  inclusive_range_error = λ lo hi. "must be in the range";
  compile = λ s. none;
  parse_cidr = λ s. false;
  parse_ip = λ s. true;
}

abbrev tea_upstream : Upstream
tea_upstream = record coffee { name = "tea"; service = "tea-svc" }

abbrev pass_to : String → Action
pass_to name = record { pass = name; redirect = none; return_ = none; proxy = none }

abbrev weighted : List Split
weighted =
    record { weight = pos 90; action = some (pass_to "coffee") }
    ∷ record { weight = pos 10; action = some (pass_to "tea") }
    ∷ []

abbrev coffee_route : Route
coffee_route = record {
  path = "/coffee";
  policies = [];
  route = "";
  action = some (pass_to "coffee");
  splits = [];
  matches = [];
  error_pages = [];
}

abbrev mixed_route : Route
mixed_route = record coffee_route { path = "/mixed"; action = none; splits = weighted }

abbrev tea_house : VirtualServer
tea_house = record cafe {
  upstreams = coffee ∷ tea_upstream ∷ [];
  routes = coffee_route ∷ mixed_route ∷ [];
}

tea_house-valid : validate_virtual_server ranges false tea_house ≡ []
unfolding validate_virtual_server
tea_house-valid = refl

validate_virtual_server-IsWellFormed_example : IsWellFormed tea_house
validate_virtual_server-IsWellFormed_example =
    validate_virtual_server-IsWellFormed ranges false tea_house tea_house-valid

ranges-IsRangeCheck : IsRangeCheck ranges
ranges-IsRangeCheck = record { in_range = λ v lo hi h. (ground arith, ground arith) }

weighted-valid :
    validate_splits ranges false weighted (new_path "splits") ("coffee" ∷ "tea" ∷ []) "/mixed" ≡ []
unfolding validate_splits
weighted-valid = refl

validate_splits-weights_example :
    (2 ≤ length weighted)
    × ((s : Split) → In s weighted → IsWeight s.weight)
    × (sum_weights weighted ≡ 100)
validate_splits-weights_example =
    validate_splits-weights ranges false ranges-IsRangeCheck weighted (new_path "splits")
      ("coffee" ∷ "tea" ∷ []) "/mixed" (omega arith) weighted-valid

coffee-valid :
    (validate_upstreams ranges false (coffee ∷ tea_upstream ∷ []) (new_path "upstreams")).0 ≡ []
unfolding validate_upstreams
coffee-valid = refl

validate_upstreams-IsOpenSource_example : IsOpenSource tea_upstream
validate_upstreams-IsOpenSource_example =
    validate_upstreams-IsOpenSource ranges (coffee ∷ tea_upstream ∷ []) (new_path "upstreams")
      tea_upstream coffee-valid (inr (inl refl))

abbrev milk_route : Route
milk_route = record coffee_route { path = "/milk"; action = none; route = "milk" }

abbrev oat_route : Route
oat_route = record coffee_route { path = "/milk/oat" }

abbrev milk : VirtualServerRoute
milk = record {
  meta = record cafe_meta { name = "milk" };
  host = "cafe.example.com";
  upstreams = coffee ∷ [];
  subroutes = oat_route ∷ [];
}

milk-valid :
    validate_virtual_server_route_for_virtual_server ranges false milk "cafe.example.com" "/milk"
    ≡ []
unfolding validate_virtual_server_route_for_virtual_server
milk-valid = refl

cafe_host-≢ : milk.host ≢ ""
cafe_host-≢ e = ground (arith, (eq_iff milk.host "").1 e)

milk_path-≢ : milk_route.path ≢ ""
milk_path-≢ e = ground (arith, (eq_iff milk_route.path "").1 e)

validate_virtual_server_route-IsSubrouteOf_example : IsSubrouteOf "cafe.example.com" "/milk" milk
validate_virtual_server_route-IsSubrouteOf_example =
    validate_virtual_server_route-IsSubrouteOf ranges false milk "cafe.example.com" "/milk"
      cafe_host-≢ milk_path-≢ milk-valid

-- A subroute may be any regular expression under the prefix of its route.
abbrev tea_expression : VirtualServerRoute
tea_expression = record milk { subroutes = record oat_route { path = "~ ^/tea" } ∷ [] }

tea_expression-valid :
    validate_virtual_server_route_for_virtual_server ranges false tea_expression "cafe.example.com"
      "/milk"
    ≡ []
unfolding validate_virtual_server_route_for_virtual_server
tea_expression-valid = refl

validate_string_with_variables-returns_example :
    checked_string_with_variables ranges false "${scheme}://$" (new_path "url") [] ("scheme" ∷ [])
    ≡ some (
        validate_string_with_variables ranges false "${scheme}://$"
          (new_path "url")
          []
          ("scheme" ∷ []))
validate_string_with_variables-returns_example =
    validate_string_with_variables-returns ranges false "${scheme}://$" (new_path "url") []
      ("scheme" ∷ [])

-- The loop alone would read past the end of that text.
dollars_enclosed-ends : dollars_enclosed "${scheme}://$" ≡ none
unfolding dollars_enclosed
dollars_enclosed-ends = refl

scheme-valid :
    validate_string_with_variables ranges false "${scheme}://" (new_path "url") [] ("scheme" ∷ [])
    ≡ []
unfolding validate_string_with_variables
scheme-valid = refl

abbrev milk_house : VirtualServer
milk_house = record tea_house { routes = coffee_route ∷ milk_route ∷ [] }

abbrev strict : VirtualServerValidator
strict = new_virtual_server_validator ranges false (λ errs. "invalid")

abbrev opened : Configuration
opened = new_configuration (λ object. true) false strict

milk_added : (out : Outcome) × (handle aggregate (route_updated milk) opened ≡ some out)
unfolding handle add_or_update_virtual_server_route values_at new_configuration get_resource_key
    new_virtual_server_validator
milk_added = (_, refl)

house_added :
    (out : Outcome) × (handle aggregate
        (virtual_server_updated milk_house)
        milk_added.0.configuration
      ≡ some out)
unfolding milk_added handle add_or_update_virtual_server_route add_or_update_virtual_server
    values_at new_configuration get_resource_key new_virtual_server_validator
house_added = (_, refl)

house-Reachable : Reachable aggregate house_added.0.configuration
house-Reachable =
    step (virtual_server_updated milk_house) milk_added.0.configuration house_added.0
      (step (route_updated milk) opened milk_added.0 (start (λ object. true) false strict)
        milk_added.1)
      house_added.1

house_validator : house_added.0.configuration.virtual_server_validator ≡ strict
unfolding house_added milk_added new_configuration
house_validator = refl

house_stored : lookup "default/cafe" house_added.0.configuration.virtual_servers ≡ some milk_house
unfolding house_added milk_added new_configuration lookup
house_stored = refl

Reachable-IsWellFormed_example :
    IsWellFormed milk_house
    × ((vsr : VirtualServerRoute)
        → In vsr
            (build_virtual_server_routes house_added.0.configuration milk_house milk_house.routes).0
        → (r : Route) × In r milk_house.routes × IsSubrouteOf "cafe.example.com" r.path vsr)
Reachable-IsWellFormed_example =
    Reachable-IsWellFormed ranges false (λ errs. "invalid") aggregate house_added.0.configuration
      "default/cafe" milk_house house-Reachable house_validator house_stored

milk_attached :
    (build_virtual_server_routes house_added.0.configuration milk_house milk_house.routes).0
    ≡ milk ∷ []
unfolding house_added milk_added new_configuration build_virtual_server_routes
    new_virtual_server_validator
milk_attached = refl

minus_seven : parse_int64 "-7" ≡ ok (negsuc 6)
unfolding parse_int64
minus_seven = refl

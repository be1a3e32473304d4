-- ===== src/Tests.antt =====
-- Concrete objects, and the theorems at them.
mod Runs
mod SecretFiles
mod Cafes
mod Services
use kubernetes_ingress.Prelude.{
  ℕ, Bool-cases, inl, inr, ◌==◌, get_sorted_keys, get_sorted_keys_unique, sorted_values,
  sorted_values-In, In-sorted_values, values_at, keys, String, ◌≡◌, ◌↔◌, ◌≢◌, ◌⊎◌, ◌<◌, refl, true,
  false, none, some, List, [], ◌∷◌, StrMap, lookup, arith, eq_iff, map, In, Distinct, length, ◌∙◌,
  subst, ap, sym, pos,
}
use kubernetes_ingress.Api.{
  Upstream, is_master, is_minion, has_mergeable_type, annotation, ObjectMeta, ingress_object,
  IngressPath, IngressRule, Ingress, VirtualServer, PolicyReference, get_resource_key,
}
use kubernetes_ingress.Resource.{
  Resource, full_ingress, full_virtual_server, FullIngress, is_equal, choose_object_meta_winner,
  compare_object_metas_with_annotations, compare_object_metas, deep_equal_annotations, same_bool,
  same_minions, get_key_with_kind,
}
use kubernetes_ingress.Resource.Order.{winner_asymm, winner_neg_trans, winner_total}
use kubernetes_ingress.Resource.Equality.{is_equal-key, is_equal-valid_hosts}
use kubernetes_ingress.References.{is_policy_referenced, new_service_reference_checker}
use kubernetes_ingress.References.Policies.{Names, is_policy_referenced_iff}
use kubernetes_ingress.Parsing.{
  ok, parse_uint64, parse_lb_method, parse_lb_method_for_plus, u64_mod,
}
use kubernetes_ingress.Parsing.Methods.{parse_lb_method-plus}
use kubernetes_ingress.Validation.{validate_minion_spec, validate_ingress_spec}
use kubernetes_ingress.Validation.Errors.{new_path, ErrorList}
use kubernetes_ingress.Validation.Minion.{validate_minion_spec_sound}
use kubernetes_ingress.Validation.Hosts.{validate_ingress_spec_sound}
use kubernetes_ingress.Configuration.{
  Configuration, ConfigurationProblem, ResourceChange, Operation, add_or_update,
  VirtualServerValidator, new_configuration,
}
use kubernetes_ingress.Configuration.Changes.{squash_resource_changes}
use kubernetes_ingress.Configuration.Changes.Squash.{final}
use kubernetes_ingress.Configuration.Changes.SquashLoop.{squash-final}
use kubernetes_ingress.Configuration.Changes.Deploy.{
  Deployed, Active, Claims, IsConsistent, apply_changes,
}
use kubernetes_ingress.Configuration.Deployment.{changes_between-deploys}
use kubernetes_ingress.Configuration.Operations.{
  Outcome, changes_between, add_or_update_virtual_server, add_or_update_ingress,
}
use kubernetes_ingress.Configuration.Operations.Stored.{IsValid}
use kubernetes_ingress.Configuration.Operations.Reachable.{
  virtual_server_updated, Reachable, start, step, handle, Reachable-IsValid, ingress_updated,
  virtual_server_deleted,
}
use kubernetes_ingress.Configuration.Operations.Built.{Reachable-HasRules, Reachable-handle}
use kubernetes_ingress.Configuration.Minions.{first_host}
use kubernetes_ingress.Configuration.Minions.Returns.{HasRules}
use kubernetes_ingress.Configuration.Hosts.{HostBuild, build_hosts}
use kubernetes_ingress.Configuration.Hosts.Effects.{
  Origin, origin_at, from_ingress, from_virtual_server,
}
use kubernetes_ingress.Configuration.Hosts.Fairness.{IsFair, OriginClaims}
use kubernetes_ingress.Configuration.Hosts.Build.{Nothing}
use kubernetes_ingress.Configuration.Hosts.Built.{HeldByElder, build_hosts-IsFair}
use kubernetes_ingress.Configuration.Hosts.Steps.{Held}
use kubernetes_ingress.Configuration.Problems.{
  Problems, detect_changes_in_problems, warning_problem,
}
use kubernetes_ingress.Configuration.Problems.Changed.{IsNew, detect_changes_in_problems_iff}
use kubernetes_ingress.Configuration.Find.{find_resources_for_resource_reference}
use kubernetes_ingress.Configuration.Find.Found.{References, find_resources_iff}

abbrev cafe_meta : ObjectMeta
cafe_meta = record {
  namespace = "default";
  name = "cafe";
  uid = "a1";
  creation_timestamp = 10;
  generation = 1;
  annotations = none;
}

abbrev tea_meta : ObjectMeta
tea_meta = record cafe_meta { name = "tea"; uid = "b2" }

abbrev late_meta : ObjectMeta
late_meta = record cafe_meta { name = "late"; uid = "c3"; creation_timestamp = 20 }

abbrev coffee : Upstream
coffee = record {
  name = "coffee";
  service = "coffee-svc";
  subselector = [];
  port = 80;
  lb_method = "";
  fail_timeout = "";
  max_fails = none;
  max_conns = none;
  keepalive = none;
  proxy_connect_timeout = "30s";
  proxy_read_timeout = "";
  proxy_send_timeout = "";
  proxy_next_upstream = "error timeout";
  proxy_next_upstream_timeout = "";
  proxy_next_upstream_tries = pos 0;
  proxy_buffering = none;
  proxy_buffers = none;
  proxy_buffer_size = "";
  client_max_body_size = "1m";
  tls = false;
  health_check = none;
  slow_start = "";
  queue = none;
  session_cookie = none;
}

abbrev cafe : VirtualServer
cafe = record {
  meta = cafe_meta;
  host = "cafe.example.com";
  tls = none;
  policies = [];
  upstreams = coffee ∷ [];
  routes = [];
}

abbrev full_cafe : Resource
full_cafe =
    full_virtual_server
      (record { virtual_server = cafe; virtual_server_routes = []; warnings = [] })

abbrev tea_rule : IngressRule
tea_rule = record {
  host = "tea.example.com";
  http = some (record { path = "/"; service_name = "tea-svc" } ∷ []);
}

abbrev tea : Ingress
tea = record { meta = tea_meta; backend = none; tls = []; rules = tea_rule ∷ [] }

abbrev full_tea : FullIngress
full_tea = record {
  ingress = tea;
  is_master = false;
  minions = [];
  valid_hosts = ("tea.example.com", true) ∷ [];
  warnings = [];
  child_warnings = [];
}

abbrev cafe_hosts : StrMap Resource
cafe_hosts = ("cafe.example.com", full_cafe) ∷ []

abbrev validator : VirtualServerValidator
validator = record {
  validate_virtual_server = λ vs. none;
  validate_virtual_server_route = λ vsr. none;
  validate_virtual_server_route_for_virtual_server = λ vsr host path. none;
}

abbrev aggregate : ErrorList → String
aggregate errors = "errors"

abbrev nothing_yet : Configuration
nothing_yet = new_configuration (λ object. true) false validator

none-IsConsistent : IsConsistent []
unfolding lookup
none-IsConsistent = record {
  own = λ h r l. absurd (ground arith);
  hosted = λ h h' r l c. absurd (ground arith);
  unique = λ h h' r r' l l' e. absurd (ground arith);
}

cafe_hosts-lookup :
    (h : String) (r : Resource)
    → lookup h cafe_hosts ≡ some r
    → (h ≡ "cafe.example.com") × (full_cafe ≡ r)
unfolding lookup
cafe_hosts-lookup h r l =
    (ground (arith, eq_iff "cafe.example.com" h), ground (arith, eq_iff "cafe.example.com" h))

cafe_hosts-hosted :
    (h' : String) (r : Resource)
    → full_cafe ≡ r
    → Claims r h'
    → (r' : Resource) × (lookup h' cafe_hosts ≡ some r')
      × (get_key_with_kind r' ≡ get_key_with_kind r)
unfolding lookup
cafe_hosts-hosted h' r f c =
    let at : h' ≡ "cafe.example.com" = subst (λ x. Claims x h') (sym f) c in
    (full_cafe, ap (λ x. lookup x cafe_hosts) at, ap get_key_with_kind f)

cafe_hosts-IsConsistent : IsConsistent cafe_hosts
cafe_hosts-IsConsistent = record {
  own = λ h r l. let (e, f) = cafe_hosts-lookup h r l in rw (← f) e;
  hosted = λ h h' r l c. cafe_hosts-hosted h' r (cafe_hosts-lookup h r l).1 c;
  unique = λ h h' r r' l l' e. sym (cafe_hosts-lookup h r l).1 ∙ (cafe_hosts-lookup h' r' l').1;
}

-- A VirtualServer appears.
changes_between-deploys_example :
    (changes : List ResourceChange) × (changes_between [] cafe_hosts ≡ some changes)
    × ((d : Deployed)
        → ((k : String) → (d k ≡ true) ↔ Active [] k)
        → (k : String) → (apply_changes changes d k ≡ true) ↔ Active cafe_hosts k)
changes_between-deploys_example =
    changes_between-deploys [] cafe_hosts none-IsConsistent cafe_hosts-IsConsistent

abbrev cafe_stored : Configuration
cafe_stored = record nothing_yet {
  hosts = cafe_hosts;
  virtual_servers = ("default/cafe", cafe) ∷ [];
}

abbrev cafe_added : Outcome
cafe_added = record {
  configuration = cafe_stored;
  changes = record { op = add_or_update; resource = full_cafe; error = "" } ∷ [];
  problems = [];
}

cafe_added_lem : handle aggregate (virtual_server_updated cafe) nothing_yet ≡ some cafe_added
unfolding handle add_or_update_virtual_server values_at new_configuration get_resource_key
cafe_added_lem = refl

cafe_stored-Reachable : Reachable aggregate cafe_stored
cafe_stored-Reachable =
    step (virtual_server_updated cafe) nothing_yet cafe_added
      (start (λ object. true) false validator) cafe_added_lem

Reachable-IsValid_example : IsValid aggregate cafe_stored
Reachable-IsValid_example = Reachable-IsValid aggregate cafe_stored cafe_stored-Reachable

abbrev added_cafe : ResourceChange
added_cafe = record { op = add_or_update; resource = full_cafe; error = "" }

abbrev removed_cafe : ResourceChange
removed_cafe = record { op = Operation.delete; resource = full_cafe; error = "" }

abbrev added_tea : ResourceChange
added_tea = record { op = add_or_update; resource = full_ingress full_tea; error = "" }

abbrev three_changes : List ResourceChange
three_changes = removed_cafe ∷ added_tea ∷ added_cafe ∷ []

squash-final_example :
    (out : List ResourceChange) × (squash_resource_changes three_changes ≡ some out)
    × ((k : String) → final k out ≡ final k three_changes)
squash-final_example = squash-final three_changes

abbrev orphan_problem : ConfigurationProblem
orphan_problem = warning_problem (ingress_object tea) "NoIngressMasterFound" "no master"

abbrev new_problems : Problems
new_problems = ("Ingress/default/tea", orphan_problem) ∷ []

detect_changes_in_problems_iff_example :
    In orphan_problem (detect_changes_in_problems new_problems []) ↔ (
      (key : String) × (lookup key new_problems ≡ some orphan_problem)
      × IsNew [] key orphan_problem)
detect_changes_in_problems_iff_example =
    detect_changes_in_problems_iff new_problems [] orphan_problem

find_resources_iff_example :
    In full_cafe (
      find_resources_for_resource_reference "default" "coffee-svc" new_service_reference_checker
        cafe_stored)
    ↔ (((host : String) × (lookup host cafe_stored.hosts ≡ some full_cafe))
        × References new_service_reference_checker "default" "coffee-svc" full_cafe)
find_resources_iff_example =
    find_resources_iff "default" "coffee-svc" new_service_reference_checker cafe_stored full_cafe

abbrev two_policies : List PolicyReference
two_policies =
    record { name = "jwt"; namespace = "shared" } ∷ record { name = "limit"; namespace = "" } ∷ []

is_policy_referenced_iff_example :
    (is_policy_referenced two_policies "default" "default" "limit" ≡ true)
    ↔ ((p : PolicyReference) × In p two_policies × Names p "default" "default" "limit")
is_policy_referenced_iff_example = is_policy_referenced_iff two_policies "default" "default" "limit"

largest_uint64 : parse_uint64 "18446744073709551615" ≡ ok 18446744073709551615
unfolding parse_uint64
largest_uint64 = refl

parse_lb_method-plus_accepted : parse_lb_method " random two " ≡ ok "random two"
unfolding parse_lb_method
parse_lb_method-plus_accepted = refl

parse_lb_method-plus_example : parse_lb_method_for_plus " random two " ≡ ok "random two"
parse_lb_method-plus_example =
    parse_lb_method-plus " random two " "random two" parse_lb_method-plus_accepted

validate_minion_spec_sound_accepted : validate_minion_spec tea (new_path "spec") ≡ []
unfolding validate_minion_spec
validate_minion_spec_sound_accepted = refl

validate_minion_spec_sound_example :
    (tea.tls ≡ [])
    × ((r : IngressRule) × (paths : List IngressPath) × (tea.rules ≡ r ∷ [])
        × (r.http ≡ some paths)
        × (0 < length paths))
validate_minion_spec_sound_example =
    validate_minion_spec_sound tea (new_path "spec") validate_minion_spec_sound_accepted

validate_ingress_spec_sound_accepted : validate_ingress_spec tea (new_path "spec") ≡ []
unfolding validate_ingress_spec
validate_ingress_spec_sound_accepted = refl

validate_ingress_spec_sound_example :
    (tea.rules ≢ [])
    × Distinct (map (λ r. r.host) tea.rules)
    × ((r : IngressRule) → In r tea.rules → r.host ≢ "")
validate_ingress_spec_sound_example =
    validate_ingress_spec_sound tea (new_path "spec") validate_ingress_spec_sound_accepted

winner_asymm_greater : choose_object_meta_winner tea_meta cafe_meta ≡ true
unfolding choose_object_meta_winner
winner_asymm_greater = refl

winner_asymm_example : choose_object_meta_winner cafe_meta tea_meta ≡ false
winner_asymm_example = winner_asymm tea_meta cafe_meta winner_asymm_greater

winner_neg_trans_later : choose_object_meta_winner late_meta cafe_meta ≡ false
unfolding choose_object_meta_winner
winner_neg_trans_later = refl

winner_neg_trans_lesser : choose_object_meta_winner cafe_meta tea_meta ≡ false
unfolding choose_object_meta_winner
winner_neg_trans_lesser = refl

winner_neg_trans_example : choose_object_meta_winner late_meta tea_meta ≡ false
winner_neg_trans_example =
    winner_neg_trans late_meta cafe_meta tea_meta winner_neg_trans_later winner_neg_trans_lesser

winner_total_example :
    (choose_object_meta_winner cafe_meta tea_meta ≡ true)
    ⊎ ((choose_object_meta_winner tea_meta cafe_meta ≡ true)
        ⊎ ((cafe_meta.creation_timestamp ≡ tea_meta.creation_timestamp)
            × (cafe_meta.uid ≡ tea_meta.uid)))
winner_total_example = winner_total cafe_meta tea_meta

full_tea-is_equal : is_equal (full_ingress full_tea) (full_ingress full_tea) ≡ true
unfolding is_equal compare_object_metas_with_annotations compare_object_metas deep_equal_annotations
    keys lookup same_bool same_minions
full_tea-is_equal = refl

is_equal-key_example :
    get_key_with_kind (full_ingress full_tea) ≡ get_key_with_kind (full_ingress full_tea)
is_equal-key_example =
    is_equal-key (full_ingress full_tea) (full_ingress full_tea) full_tea-is_equal

is_equal-valid_hosts_valid : lookup "tea.example.com" full_tea.valid_hosts ≡ some true
unfolding lookup
is_equal-valid_hosts_valid = refl

is_equal-valid_hosts_example : lookup "tea.example.com" full_tea.valid_hosts ≡ some true
is_equal-valid_hosts_example =
    is_equal-valid_hosts full_tea full_tea "tea.example.com" full_tea-is_equal
      is_equal-valid_hosts_valid

-- An Ingress that asks for the host of the VirtualServer, and was created later.
abbrev rival : Ingress
rival = record {
  meta = late_meta;
  backend = none;
  tls = [];
  rules = record { host = "cafe.example.com"; http = none } ∷ tea_rule ∷ [];
}

abbrev contested : Configuration
contested = record cafe_stored { ingresses = ("default/late", rival) ∷ [] }

rival-HasRules : HasRules rival
unfolding first_host is_minion has_mergeable_type annotation
rival-HasRules = record { host = ("cafe.example.com", refl); paths = λ m. absurd (ground arith) }

contested-HasRules : (i : Ingress) → In i (sorted_values contested.ingresses) → HasRules i
unfolding lookup
contested-HasRules i at =
    let (k, look) = sorted_values-In contested.ingresses i at in
    let same : rival ≡ i = ground (arith, eq_iff "default/late" k) in
    subst HasRules same rival-HasRules

build_hosts-IsFair_example :
    (s : HostBuild) × (build_hosts contested ≡ some s)
    × IsFair Nothing s
    × ((a : ℕ) (o : Origin) (h : String)
        → origin_at s.heap a ≡ some o
        → OriginClaims o h
        → HeldByElder s o h)
    × ((k : String) (i : Ingress)
        → lookup k contested.ingresses ≡ some i
        → is_minion i ≡ false
        → Held s (from_ingress i))
    × ((k : String) (v : VirtualServer)
        → lookup k contested.virtual_servers ≡ some v
        → Held s (from_virtual_server v))
build_hosts-IsFair_example = build_hosts-IsFair contested contested-HasRules

abbrev tea_stored : Configuration
tea_stored = record nothing_yet {
  hosts = ("tea.example.com", full_ingress full_tea) ∷ [];
  ingresses = ("default/tea", tea) ∷ [];
}

abbrev tea_added : Outcome
tea_added = record { configuration = tea_stored; changes = added_tea ∷ []; problems = [] }

tea_added_lem : handle aggregate (ingress_updated tea) nothing_yet ≡ some tea_added
unfolding handle add_or_update_ingress values_at new_configuration get_resource_key is_master
    is_minion
tea_added_lem = refl

tea_stored-Reachable : Reachable aggregate tea_stored
tea_stored-Reachable =
    step (ingress_updated tea) nothing_yet tea_added (start (λ object. true) false validator)
      tea_added_lem

tea-In : In tea (sorted_values tea_stored.ingresses)
unfolding lookup
tea-In = In-sorted_values tea_stored.ingresses "default/tea" tea refl

Reachable-HasRules_example : HasRules tea
Reachable-HasRules_example = Reachable-HasRules aggregate tea_stored tea_stored-Reachable tea tea-In

Reachable-handle_example :
    (out : Outcome) × (handle aggregate (virtual_server_deleted "default/cafe") cafe_stored
      ≡ some out)
Reachable-handle_example =
    Reachable-handle aggregate (virtual_server_deleted "default/cafe") cafe_stored
      cafe_stored-Reachable

abbrev two_ingresses : StrMap Ingress
two_ingresses = ("default/tea", tea) ∷ ("default/late", rival) ∷ []

abbrev two_ingresses_swapped : StrMap Ingress
two_ingresses_swapped = ("default/late", rival) ∷ ("default/tea", tea) ∷ []

two_ingresses_lem : (k : String) → lookup k two_ingresses ≡ lookup k two_ingresses_swapped
unfolding lookup
two_ingresses_lem k = elim (Bool-cases ("default/tea" == k)) [
  | inl e ↦
      subst (λ x. lookup x two_ingresses ≡ lookup x two_ingresses_swapped)
        ((eq_iff "default/tea" k).0 e) refl
  | inr e ↦ ground arith
]

get_sorted_keys_unique_example :
    get_sorted_keys two_ingresses ≡ get_sorted_keys two_ingresses_swapped
get_sorted_keys_unique_example =
    get_sorted_keys_unique two_ingresses two_ingresses_swapped two_ingresses_lem

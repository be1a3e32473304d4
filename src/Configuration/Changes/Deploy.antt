-- ===== src/Configuration/Changes/Deploy.antt =====
-- The changes against what they are for: the set of resources that NGINX has a config for. Applied in
-- order, they lead from the resources of the old hosts to exactly those of the new hosts.
use kubernetes_ingress.Prelude.{
  String, ◌≡◌, refl, Bool, true, false, none, some, List, [], ◌∷◌, StrMap, lookup, arith, ◌==◌,
  if◌then◌else◌,
}
use kubernetes_ingress.Resource.{Resource, full_ingress, full_virtual_server, get_key_with_kind}
use kubernetes_ingress.Configuration.{ResourceChange, Operation, add_or_update}
use kubernetes_ingress.Configuration.Changes.{key_of}
use kubernetes_ingress.Configuration.Changes.Squash.{final}

-- The keys of the resources with a config.
abbrev pub Deployed : Type 0
Deployed = String → Bool

-- A delete removes the config of its resource, any other change writes it.
unfoldable pub apply_change : ResourceChange → Deployed → Deployed
apply_change c d k =
    if key_of c == k then elim c.op [ Operation.delete ↦ false | add_or_update ↦ true ] else d k

unfoldable pub apply_changes : List ResourceChange → Deployed → Deployed
unfolding apply_change
apply_changes [] d = d
apply_changes (c ∷ cs) d = apply_changes cs (apply_change c d)

-- What counts for a key is the last change of its resource.
pub apply_changes-final :
    (cs : List ResourceChange) (d : Deployed) (k : String)
    → apply_changes cs d k ≡ elim (final k cs) [
      | none ↦ d k
      | some c ↦ elim c.op [ Operation.delete ↦ false | add_or_update ↦ true ]
    ]
unfolding apply_changes final
apply_changes-final [] d k = refl
apply_changes-final (c ∷ cs) d k = ground (arith, apply_changes-final cs (apply_change c d) k)

-- A resource that holds some host.
abbrev pub Active : StrMap Resource → String → Type 0
Active hosts k =
    (h : String) × (r : Resource) × (lookup h hosts ≡ some r) × (get_key_with_kind r ≡ k)

-- The hosts that a resource says it holds.
abbrev pub Claims : Resource → String → Type 0
Claims (full_ingress fi) h = lookup h fi.valid_hosts ≡ some true
Claims (full_virtual_server fvs) h = h ≡ fvs.virtual_server.host

-- A map of hosts and what its resources say agree, and resources with one key are one.
pub record IsConsistent (hosts : StrMap Resource) : Type 0 where
  pub own : (h : String) (r : Resource) → lookup h hosts ≡ some r → Claims r h
  pub hosted :
      (h h' : String) (r : Resource)
      → lookup h hosts ≡ some r
      → Claims r h'
      → (r' : Resource) × (lookup h' hosts ≡ some r') × (get_key_with_kind r' ≡ get_key_with_kind r)
  pub unique :
      (h h' : String) (r r' : Resource)
      → lookup h hosts ≡ some r
      → lookup h' hosts ≡ some r'
      → get_key_with_kind r ≡ get_key_with_kind r'
      → r ≡ r'

-- ===== src/Configuration/Operations/Effects.antt =====
-- What reports and the reference to the latest resources leave of the changes: their keys, operations
-- and order.
use kubernetes_ingress.Prelude.{
  String, ◌≡◌, refl, sym, ap, ◌∙◌, inl, inr, true, false, Option, none, some, List, [], ◌∷◌, StrMap,
  lookup, arith, Bool-cases, ◌==◌, >>=-some, if◌then◌else◌,
}
use kubernetes_ingress.Api.{Object, VirtualServerRoute}
use kubernetes_ingress.Resource.{Resource}
use kubernetes_ingress.Configuration.{ResourceChange, Operation, add_or_update}
use kubernetes_ingress.Configuration.Hosts.Consistent.{AtOwnKey}
use kubernetes_ingress.Configuration.Changes.{key_of}
use kubernetes_ingress.Configuration.Changes.Deploy.{Deployed, apply_change, apply_changes}
use kubernetes_ingress.Configuration.Operations.{
  Outcome, refer_to_latest, refer_all, set_error, report, report_route,
}

-- Two changes with one key and one operation do the same.
effect : String → Operation → Deployed → Deployed
effect key op d k =
    if key == k then elim op [ Operation.delete ↦ false | add_or_update ↦ true ] else d k

apply_change_alike :
    (c c' : ResourceChange) (d : Deployed)
    → key_of c ≡ key_of c'
    → c.op ≡ c'.op
    → apply_change c d ≡ apply_change c' d
unfolding apply_change effect
apply_change_alike c c' d key op =
    ap (λ k. effect k c.op d) key ∙ ap (λ o. effect (key_of c') o d) op

apply_refer_to_latest :
    (resources : StrMap Resource) (c : ResourceChange) (d : Deployed)
    → AtOwnKey resources
    → apply_change (refer_to_latest resources c) d ≡ apply_change c d
unfolding refer_to_latest
apply_refer_to_latest resources c d own = at_entry (lookup (key_of c) resources) refl
  where
    at_entry :
        (o : Option Resource)
        → lookup (key_of c) resources ≡ o
        → apply_change (elim o [ none ↦ c | some r ↦ record c { resource = r } ]) d
          ≡ apply_change c d
    at_entry none e = refl
    at_entry (some r) e =
        apply_change_alike (record c { resource = r }) c d (own (key_of c) r e) refl

pub apply_refer_all :
    (resources : StrMap Resource) (cs : List ResourceChange) (d : Deployed)
    → AtOwnKey resources
    → apply_changes (refer_all resources cs) d ≡ apply_changes cs d
unfolding refer_all apply_changes
apply_refer_all resources [] d own = refl
apply_refer_all resources (c ∷ cs) d own =
    apply_refer_all resources cs (apply_change (refer_to_latest resources c) d) own
    ∙ ap (apply_changes cs) (apply_refer_to_latest resources c d own)

apply_set_error :
    (key error : String) (cs cs' : List ResourceChange) (d : Deployed)
    → set_error key error cs ≡ some cs'
    → apply_changes cs' d ≡ apply_changes cs d
unfolding set_error apply_changes
apply_set_error key error [] cs' d e = absurd (ground arith)
apply_set_error key error (c ∷ cs) cs' d e = elim (Bool-cases (key_of c == key)) [
  | inl here ↦
      let same : record c { error = error } ∷ cs ≡ cs' = ground arith in
      ap (λ x. apply_changes x d) (sym same)
      ∙ ap (apply_changes cs) (apply_change_alike (record c { error = error }) c d refl refl)
  | inr later ↦
      let (rest, run, same) =
        >>=-some (set_error key error cs) (λ later. some (c ∷ later)) cs' (ground arith) in
      let same' : c ∷ rest ≡ cs' = ground arith in
      ap (λ x. apply_changes x d) (sym same')
      ∙ apply_set_error key error cs rest (apply_change c d) run
]

-- A report on a rejected object does not change what the changes do.
pub apply_report :
    (error : Option String) (key : String) (object : Object) (message : String → String)
    (out : Outcome) (d : Deployed)
    → apply_changes (report error key object message out).changes d ≡ apply_changes out.changes d
unfolding report
apply_report none key object message out d = refl
apply_report (some error) key object message out d =
    at_change (set_error key error out.changes) refl
  where
    at_change :
        (o : Option (List ResourceChange))
        → set_error key error out.changes ≡ o
        → apply_changes (report (some error) key object message out).changes d
          ≡ apply_changes out.changes d
    at_change none e = rw (e, report) refl
    at_change (some cs) e = rw (e, report) (apply_set_error key error out.changes cs d e)

pub apply_report_route :
    (error : Option String) (vsr : VirtualServerRoute) (out : Outcome) (d : Deployed)
    → apply_changes (report_route error vsr out).changes d ≡ apply_changes out.changes d
unfolding report_route
apply_report_route none vsr out d = refl
apply_report_route (some error) vsr out d = refl

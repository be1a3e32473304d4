-- ===== src/Configuration/Changes/SquashOrder.antt =====
-- The order of the squashed changes: "delete changes come first".
use mathlib.Core.List.{◌++◌}
use kubernetes_ingress.Prelude.{
  ◌≡◌, refl, sym, ◌∙◌, inl, inr, some, List, [], ◌∷◌, StrMap, lookup, delete, append, arith,
  Option-cases, In, In-append_cases,
}
use kubernetes_ingress.Configuration.{ResourceChange, Operation, add_or_update}
use kubernetes_ingress.Configuration.Changes.{
  key_of, changes_per_resource, last, squash_loop, squash_resource_changes,
}
use kubernetes_ingress.Configuration.Changes.Squash.{squash_loop_step}

abbrev pub AllOf : Operation → List ResourceChange → Type 0
AllOf op cs = (c : ResourceChange) → In c cs → c.op ≡ op

-- A list of deletes followed by one of updates.
abbrev pub DeletesFirst : List ResourceChange → Type 0
DeletesFirst out =
    (deletes : List ResourceChange) × (updates : List ResourceChange) × (out ≡ deletes ++ updates)
    × AllOf Operation.delete deletes
    × AllOf add_or_update updates

AllOf-append :
    (op : Operation) (cs : List ResourceChange) (c : ResourceChange)
    → AllOf op cs
    → c.op ≡ op
    → AllOf op (append cs c)
AllOf-append op cs c all e x i = elim (In-append_cases x cs (c ∷ []) i) [
  | inl j ↦ all x j
  | inr (inl same) ↦ rw same e
  | inr (inr z) ↦ absurd z
]

squash_loop-DeletesFirst :
    (m : StrMap (List ResourceChange)) (deletes updates cs out : List ResourceChange)
    → AllOf Operation.delete deletes
    → AllOf add_or_update updates
    → squash_loop m deletes updates cs ≡ some out
    → DeletesFirst out
unfolding squash_loop
squash_loop-DeletesFirst m ds us [] out d u e = (ds, us, ground arith, d, u)
squash_loop-DeletesFirst m ds us (change ∷ cs) out d u e =
    elim (Option-cases (lookup (key_of change) m)) [
      | inl n ↦ squash_loop-DeletesFirst m ds us cs out d u (sym (rw (n, squash_loop) refl) ∙ e)
      | inr (l, n) ↦ elim (Option-cases (last l)) [
        | inl z ↦ absurd (ground arith)
        | inr (c, z) ↦
            at_op c c.op refl
              (λ ds' us' d' u' e'.
                squash_loop-DeletesFirst (delete (key_of change) m) ds' us' cs out d' u' e')
              (sym (squash_loop_step m ds us cs change c l n z) ∙ e)
      ]
    ]
  where
    at_op :
        (c : ResourceChange) (op : Operation)
        → c.op ≡ op
        → ((ds' us' : List ResourceChange)
            → AllOf Operation.delete ds'
            → AllOf add_or_update us'
            → squash_loop (delete (key_of change) m) ds' us' cs ≡ some out
            → DeletesFirst out)
        → elim op [
          | Operation.delete ↦ squash_loop (delete (key_of change) m) (append ds c) us cs
          | add_or_update ↦ squash_loop (delete (key_of change) m) ds (append us c) cs
        ]
          ≡ some out
        → DeletesFirst out
    at_op c Operation.delete eo ih run =
        ih (append ds c) us (AllOf-append Operation.delete ds c d eo) u run
    at_op c add_or_update eo ih run =
        ih ds (append us c) d (AllOf-append add_or_update us c u eo) run

-- In the squashed changes no delete comes after an update.
pub squash-DeletesFirst :
    (changes out : List ResourceChange)
    → squash_resource_changes changes ≡ some out
    → DeletesFirst out
unfolding squash_resource_changes
squash-DeletesFirst changes out e =
    squash_loop-DeletesFirst (changes_per_resource [] changes) [] [] changes out (λ c i. absurd i)
      (λ c i. absurd i) e

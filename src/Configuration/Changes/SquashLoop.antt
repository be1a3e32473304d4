-- ===== src/Configuration/Changes/SquashLoop.antt =====
-- `squashResourceChanges` as a whole: it keeps the last change of each resource, once, and puts the
-- deletes first.
use mathlib.Core.List.{◌++◌}
use kubernetes_ingress.Prelude.{
  String, ◌≡◌, refl, sym, ◌∙◌, inl, inr, none, some, List, [], ◌∷◌, StrMap, lookup, delete, append,
  arith, Option-cases,
}
use kubernetes_ingress.Configuration.{ResourceChange, Operation, add_or_update}
use kubernetes_ingress.Configuration.Changes.{
  key_of, changes_per_resource, last, squash_loop, squash_resource_changes,
}
use kubernetes_ingress.Configuration.Changes.Squash.{
  final, slot, Slots, Pending, IsKept, Extends, Slots-delete, slot-some, changes_per_resource-Slots,
  slot-changes_per_resource, skip-IsKept, Extends-update, Extends-delete, Pending-keep, kept_keep,
  squash_loop_step,
}

-- A turn that keeps `c`: the rest of the loop runs with it in one of the lists.
keep-IsKept :
    (m : StrMap (List ResourceChange)) (c change : ResourceChange)
    (deletes updates deletes' updates' cs : List ResourceChange)
    → Extends c deletes updates deletes' updates'
    → key_of change ≡ key_of c
    → slot m (key_of c) ≡ some c
    → squash_loop m deletes updates (change ∷ cs)
      ≡ squash_loop (delete (key_of c) m) deletes' updates' cs
    → IsKept (delete (key_of c) m) deletes' updates' cs
    → IsKept m deletes updates (change ∷ cs)
keep-IsKept m c change deletes updates deletes' updates' cs e same here step (out, run, f) = (
  out,
  step ∙ run,
  λ k. f k ∙ kept_keep m c change deletes updates deletes' updates' cs e same here k,
)

turn-IsKept :
    (m : StrMap (List ResourceChange)) (deletes updates cs : List ResourceChange)
    (change c : ResourceChange) (l : List ResourceChange)
    → Pending m deletes updates
    → ((deletes' updates' : List ResourceChange)
        → Pending (delete (key_of c) m) deletes' updates'
        → IsKept (delete (key_of c) m) deletes' updates' cs)
    → lookup (key_of change) m ≡ some l
    → last l ≡ some c
    → key_of change ≡ key_of c
    → slot m (key_of c) ≡ some c
    → (op : Operation) → c.op ≡ op
    → IsKept m deletes updates (change ∷ cs)
turn-IsKept m deletes updates cs change c l p ih h e same here Operation.delete eop =
    let ext = Extends-delete c deletes updates (p (key_of c) c here) in
    keep-IsKept m c change deletes updates (append deletes c) updates cs ext same here
      (squash_loop_step m deletes updates cs change c l h e ∙ simp (eop, same))
      (ih (append deletes c) updates
        (Pending-keep m c deletes updates (append deletes c) updates ext p))
turn-IsKept m deletes updates cs change c l p ih h e same here add_or_update eop =
    let ext = Extends-update c deletes updates in
    keep-IsKept m c change deletes updates deletes (append updates c) cs ext same here
      (squash_loop_step m deletes updates cs change c l h e ∙ simp (eop, same))
      (ih deletes (append updates c)
        (Pending-keep m c deletes updates deletes (append updates c) ext p))

pub squash_loop-IsKept :
    (m : StrMap (List ResourceChange)) (deletes updates cs : List ResourceChange)
    → Slots m
    → Pending m deletes updates
    → IsKept m deletes updates cs
unfolding squash_loop final
squash_loop-IsKept m deletes updates [] s p = (deletes ++ updates, refl, λ k. refl)
squash_loop-IsKept m deletes updates (change ∷ cs) s p =
    elim (Option-cases (lookup (key_of change) m)) [
      | inl h ↦
          skip-IsKept m deletes updates cs change h (squash_loop-IsKept m deletes updates cs s p)
      | inr (l, h) ↦
          let (c, e, same) = s (key_of change) l h in
          let here : slot m (key_of c) ≡ some c = rw same (slot-some m (key_of change) l h ∙ e) in
          turn-IsKept m deletes updates cs change c l p
            (λ ds us q.
              squash_loop-IsKept (delete (key_of c) m) ds us cs (Slots-delete m (key_of c) s) q)
            h e (sym same) here c.op refl
    ]

Slots-nil : Slots []
unfolding lookup
Slots-nil k l h = cc

slot-nil : (k : String) → slot [] k ≡ none
unfolding slot lookup
slot-nil k = refl

-- For any changes the squashing returns a list, and the last change of every resource in it is the
-- last change of that resource in the original list: the same operation on the same resource.
pub squash-final :
    (changes : List ResourceChange)
    → (out : List ResourceChange) × (squash_resource_changes changes ≡ some out)
      × ((k : String) → final k out ≡ final k changes)
unfolding squash_resource_changes final
squash-final changes =
    let (out, run, f) =
      squash_loop-IsKept (changes_per_resource [] changes) [] [] changes
        (changes_per_resource-Slots [] changes Slots-nil) (λ k c h. refl) in
    (out, run, λ k. ground (arith, f k, slot-changes_per_resource [] changes k, slot-nil k))

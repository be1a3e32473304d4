-- ===== src/Configuration/Changes/Squash.antt =====
-- What `squashResourceChanges` keeps: the last change of each resource.
use mathlib.Core.List.{◌++◌}
use kubernetes_ingress.Prelude.{
  String, ◌≡◌, refl, inl, inr, true, Option, none, some, List, [], ◌∷◌, StrMap, lookup, insert,
  delete, lookup-insert, lookup-delete, append, arith, ◌==◌, eq_iff, if◌then◌else◌, Bool-cases,
}
use kubernetes_ingress.Configuration.{ResourceChange, Operation, add_or_update}
use kubernetes_ingress.Configuration.Changes.{
  key_of, add_change, changes_per_resource, last, squash_loop,
}

-- The first of two answers that is one.
abbrev pub or_else : {A : Type 0} → Option A → Option A → Option A
or_else none o = o
or_else (some a) o = some a

-- The last change of the resource with the key.
unfoldable pub final : String → List ResourceChange → Option ResourceChange
final k [] = none
final k (c ∷ cs) = or_else (final k cs) (if key_of c == k then some c else none)

pub final-append :
    (k : String) (xs ys : List ResourceChange)
    → final k (xs ++ ys) ≡ or_else (final k ys) (final k xs)
unfolding final
final-append k [] ys = ground arith
final-append k (x ∷ xs) ys = ground (arith, final-append k xs ys)

pub final-key :
    (k : String) (cs : List ResourceChange) (c : ResourceChange)
    → final k cs ≡ some c
    → key_of c ≡ k
unfolding final
final-key k [] c h = cc
final-key k (x ∷ xs) c h = ground (arith, final-key k xs c, eq_iff (key_of x) k)

last-append : (l : List ResourceChange) (c : ResourceChange) → last (append l c) ≡ some c
unfolding last
last-append [] c = refl
last-append (x ∷ []) c = refl
last-append (x ∷ y ∷ l) c = last-append (y ∷ l) c

-- The last change that the map holds for a key.
unfoldable pub slot : StrMap (List ResourceChange) → String → Option ResourceChange
slot m k = elim (lookup k m) [ none ↦ none | some l ↦ last l ]

-- No list of the map is empty, and the last change of each list is of the list's resource.
abbrev pub Slots : StrMap (List ResourceChange) → Type 0
Slots m =
    (k : String) (l : List ResourceChange)
    → lookup k m ≡ some l
    → (c : ResourceChange) × (last l ≡ some c) × (key_of c ≡ k)

Slots-insert :
    (m : StrMap (List ResourceChange)) (c : ResourceChange) (l : List ResourceChange)
    → Slots m
    → Slots (insert (key_of c) (append l c) m)
Slots-insert m c l s k l' h = elim (Bool-cases (key_of c == k)) [
  | inl e ↦ (c, rw (← same e) (last-append l c), (eq_iff (key_of c) k).0 e)
  | inr n ↦ s k l' (rw (lookup-insert, n) at h)
]
  where
    same : (key_of c == k) ≡ true → append l c ≡ l'
    same e = ground (arith, lookup-insert (key_of c) k (append l c) m)

slot-insert :
    (m : StrMap (List ResourceChange)) (c : ResourceChange) (l : List ResourceChange) (k : String)
    → slot (insert (key_of c) (append l c) m) k ≡ (if key_of c == k then some c else slot m k)
unfolding slot lookup
slot-insert m c l k = ground (arith, last-append l c)

add_change-Slots :
    (m : StrMap (List ResourceChange)) (c : ResourceChange) → Slots m → Slots (add_change m c)
unfolding add_change
add_change-Slots m c s = Slots-insert m c (elim (lookup (key_of c) m) [ none ↦ [] | some l ↦ l ]) s

slot-add_change :
    (m : StrMap (List ResourceChange)) (c : ResourceChange) (k : String)
    → slot (add_change m c) k ≡ (if key_of c == k then some c else slot m k)
unfolding add_change
slot-add_change m c k = slot-insert m c (elim (lookup (key_of c) m) [ none ↦ [] | some l ↦ l ]) k

pub changes_per_resource-Slots :
    (m : StrMap (List ResourceChange)) (cs : List ResourceChange)
    → Slots m
    → Slots (changes_per_resource m cs)
unfolding changes_per_resource
changes_per_resource-Slots m [] s = s
changes_per_resource-Slots m (c ∷ cs) s =
    changes_per_resource-Slots (add_change m c) cs (add_change-Slots m c s)

pub slot-changes_per_resource :
    (m : StrMap (List ResourceChange)) (cs : List ResourceChange) (k : String)
    → slot (changes_per_resource m cs) k ≡ or_else (final k cs) (slot m k)
unfolding changes_per_resource final
slot-changes_per_resource m [] k = refl
slot-changes_per_resource m (c ∷ cs) k =
    ground (arith, slot-changes_per_resource (add_change m c) cs k, slot-add_change m c k)

pub Slots-delete : (m : StrMap (List ResourceChange)) (q : String) → Slots m → Slots (delete q m)
Slots-delete m q s k l h = s k l (ground (arith, lookup-delete q k m))

pub slot-delete :
    (m : StrMap (List ResourceChange)) (q k : String)
    → slot (delete q m) k ≡ (if q == k then none else slot m k)
unfolding slot
slot-delete m q k = ground (arith, lookup-delete q k m)

-- What the loop must still find: the slots hold changes of resources that are not yet kept.
abbrev pub Pending :
    StrMap (List ResourceChange) → List ResourceChange → List ResourceChange → Type 0
Pending m deletes updates =
    (k : String) (c : ResourceChange) → slot m k ≡ some c → final k (deletes ++ updates) ≡ none

-- The change that the loop ends with for a key.
abbrev pub kept :
    StrMap (List ResourceChange)
    → List ResourceChange
    → List ResourceChange
    → List ResourceChange
    → String
    → Option ResourceChange
kept m deletes updates cs k = elim (final k cs) [
  | none ↦ final k (deletes ++ updates)
  | some _ ↦ or_else (slot m k) (final k (deletes ++ updates))
]

abbrev pub IsKept :
    StrMap (List ResourceChange)
    → List ResourceChange
    → List ResourceChange
    → List ResourceChange
    → Type 0
IsKept m deletes updates cs =
    (out : List ResourceChange) × (squash_loop m deletes updates cs ≡ some out)
    × ((k : String) → final k out ≡ kept m deletes updates cs k)

pub slot_missing :
    (m : StrMap (List ResourceChange)) (q : String) → lookup q m ≡ none → slot m q ≡ none
unfolding slot
slot_missing m q h = rw (h, slot)

pub skip-IsKept :
    (m : StrMap (List ResourceChange)) (deletes updates cs : List ResourceChange)
    (c : ResourceChange)
    → lookup (key_of c) m ≡ none
    → IsKept m deletes updates cs
    → IsKept m deletes updates (c ∷ cs)
unfolding squash_loop final
skip-IsKept m deletes updates cs c h (out, e, f) = (
  out,
  rw (h, squash_loop) e,
  λ k. ground (arith, f k, slot_missing m (key_of c) h, eq_iff (key_of c) k),
)

pub slot-some :
    (m : StrMap (List ResourceChange)) (q : String) (l : List ResourceChange)
    → lookup q m ≡ some l
    → slot m q ≡ last l
unfolding slot
slot-some m q l h = rw (h, slot)

-- The new lists hold one more change, the last of its resource.
abbrev pub Extends :
    ResourceChange
    → List ResourceChange
    → List ResourceChange
    → List ResourceChange
    → List ResourceChange
    → Type 0
Extends c deletes updates deletes' updates' =
    (k : String)
    → final k (deletes' ++ updates')
      ≡ (if key_of c == k then some c else final k (deletes ++ updates))

pub Extends-update :
    (c : ResourceChange) (deletes updates : List ResourceChange)
    → Extends c deletes updates deletes (append updates c)
unfolding final
Extends-update c deletes updates k = ground (
  arith,
  final-append k deletes (append updates c),
  final-append k deletes updates,
  final-append k updates (c ∷ []),
)

pub Extends-delete :
    (c : ResourceChange) (deletes updates : List ResourceChange)
    → final (key_of c) (deletes ++ updates) ≡ none
    → Extends c deletes updates (append deletes c) updates
unfolding final
Extends-delete c deletes updates h k = ground (
  arith,
  eq_iff (key_of c) k,
  final-append k (append deletes c) updates,
  final-append k deletes updates,
  final-append (key_of c) deletes updates,
  final-append k deletes (c ∷ []),
)

pub Pending-keep :
    (m : StrMap (List ResourceChange)) (c : ResourceChange)
    (deletes updates deletes' updates' : List ResourceChange)
    → Extends c deletes updates deletes' updates'
    → Pending m deletes updates
    → Pending (delete (key_of c) m) deletes' updates'
Pending-keep m c deletes updates deletes' updates' e p k c' h =
    ground (arith, slot-delete m (key_of c) k, e k, p k c')

pub kept_keep :
    (m : StrMap (List ResourceChange)) (c change : ResourceChange)
    (deletes updates deletes' updates' cs : List ResourceChange)
    → Extends c deletes updates deletes' updates'
    → key_of change ≡ key_of c
    → slot m (key_of c) ≡ some c
    → (k : String)
    → kept (delete (key_of c) m) deletes' updates' cs k ≡ kept m deletes updates (change ∷ cs) k
unfolding final
kept_keep m c change deletes updates deletes' updates' cs e same here k =
    ground (arith, slot-delete m (key_of c) k, e k, eq_iff (key_of c) k, eq_iff (key_of change) k)

pub squash_loop_step :
    (m : StrMap (List ResourceChange)) (deletes updates cs : List ResourceChange)
    (change c : ResourceChange) (l : List ResourceChange)
    → lookup (key_of change) m ≡ some l
    → last l ≡ some c
    → squash_loop m deletes updates (change ∷ cs) ≡ elim c.op [
      | Operation.delete ↦ squash_loop (delete (key_of change) m) (append deletes c) updates cs
      | add_or_update ↦ squash_loop (delete (key_of change) m) deletes (append updates c) cs
    ]
unfolding squash_loop
squash_loop_step m deletes updates cs change c l h e = rw (h, squash_loop) (rw (e, last))

-- ===== src/Configuration/Changes/Detect.antt =====
-- What `detectChangesInHosts` finds, and the changes that `createResourceChanges` makes of it.
use kubernetes_ingress.Prelude.{
  String, ◌≡◌, refl, ◌⊎◌, inl, inr, true, false, none, some, List, [], ◌∷◌, StrMap, lookup, arith,
  eq_iff, Option-cases, In,
}
use kubernetes_ingress.Resource.{Resource, get_key_with_kind, is_equal}
use kubernetes_ingress.Configuration.{ResourceChange, Operation}
use kubernetes_ingress.Configuration.Changes.{
  missing_in, is_updated, updated_of, change_of, changes_at, key_of,
}
use kubernetes_ingress.Configuration.Changes.Squash.{final}

pub missing_in-In :
    (m : StrMap Resource) (hs : List String) (h : String)
    → In h (missing_in m hs)
    → In h hs × (lookup h m ≡ none)
unfolding missing_in
missing_in-In m [] h i = absurd i
missing_in-In m (x ∷ hs) h i = ground (arith, missing_in-In m hs h)

pub In-missing_in :
    (m : StrMap Resource) (hs : List String) (h : String)
    → In h hs
    → lookup h m ≡ none
    → In h (missing_in m hs)
unfolding missing_in
In-missing_in m [] h i e = i
In-missing_in m (x ∷ hs) h i e = ground (arith, In-missing_in m hs h)

pub updated_of-In :
    (m n : StrMap Resource) (hs : List String) (h : String)
    → In h (updated_of m n hs)
    → In h hs × (is_updated m n h ≡ true)
unfolding updated_of
updated_of-In m n [] h i = absurd i
updated_of-In m n (x ∷ hs) h i = ground (arith, updated_of-In m n hs h)

pub In-updated_of :
    (m n : StrMap Resource) (hs : List String) (h : String)
    → In h hs
    → is_updated m n h ≡ true
    → In h (updated_of m n hs)
unfolding updated_of
In-updated_of m n [] h i e = i
In-updated_of m n (x ∷ hs) h i e = ground (arith, In-updated_of m n hs h)

-- Both hosts maps have an updated host, with resources that differ.
pub is_updated-true :
    (m n : StrMap Resource) (h : String)
    → is_updated m n h ≡ true
    → (old_r : Resource) × (r : Resource) × (lookup h m ≡ some old_r)
      × (lookup h n ≡ some r)
      × (is_equal old_r r ≡ false)
unfolding is_updated
is_updated-true m n h e = elim (Option-cases (lookup h m)) [
  | inl a ↦ absurd (ground arith)
  | inr (old_r, a) ↦ elim (Option-cases (lookup h n)) [
    | inl b ↦ absurd (ground arith)
    | inr (r, b) ↦ (old_r, r, a, b, ground arith)
  ]
]

-- A resource at one of the hosts, with the key.
abbrev pub At : StrMap Resource → List String → String → Type 0
At hosts hs k =
    (h : String) × (r : Resource) × In h hs × (lookup h hosts ≡ some r) × (get_key_with_kind r ≡ k)

pub changes_at-total :
    (op : Operation) (hosts : StrMap Resource) (hs : List String)
    → ((h : String) → In h hs → (r : Resource) × (lookup h hosts ≡ some r))
    → (cs : List ResourceChange) × (changes_at op hosts hs ≡ some cs)
unfolding changes_at
changes_at-total op hosts [] found = ([], refl)
changes_at-total op hosts (h ∷ hs) found =
    let (r, e) = found h (inl refl) in
    let (cs, f) = changes_at-total op hosts hs (λ x i. found x (inr i)) in
    (change_of op r ∷ cs, rw (e, f))

changes_at-cons :
    (op : Operation) (hosts : StrMap Resource) (h : String) (hs : List String)
    (cs : List ResourceChange)
    → changes_at op hosts (h ∷ hs) ≡ some cs
    → (r : Resource) × (rest : List ResourceChange) × (lookup h hosts ≡ some r)
      × (changes_at op hosts hs ≡ some rest)
      × (cs ≡ change_of op r ∷ rest)
unfolding changes_at
changes_at-cons op hosts h hs cs e = elim (Option-cases (lookup h hosts)) [
  | inl n ↦ absurd (ground arith)
  | inr (r, a) ↦ elim (Option-cases (changes_at op hosts hs)) [
    | inl n ↦ absurd (ground arith)
    | inr (rest, b) ↦ (r, rest, a, b, ground arith)
  ]
]

-- The last change of a list that begins with one: of the rest, or this one.
pub final-cons_some :
    (k : String) (x : ResourceChange) (rest : List ResourceChange) (c : ResourceChange)
    → final k (x ∷ rest) ≡ some c
    → (final k rest ≡ some c) ⊎ ((c ≡ x) × (key_of x ≡ k))
unfolding final
final-cons_some k x rest c e = ground (arith, eq_iff (key_of x) k)

pub final-cons_found :
    (k : String) (x : ResourceChange) (rest : List ResourceChange)
    → (key_of x ≡ k) ⊎ ((c : ResourceChange) × (final k rest ≡ some c))
    → (c : ResourceChange) × (final k (x ∷ rest) ≡ some c)
unfolding final
final-cons_found k x rest f = elim (Option-cases (final k rest)) [
  | inl n ↦ (x, ground (arith, eq_iff (key_of x) k))
  | inr (c, n) ↦ (c, ground arith)
]

pub final-changes_at :
    (op : Operation) (hosts : StrMap Resource) (hs : List String) (cs : List ResourceChange)
    (k : String) (c : ResourceChange)
    → changes_at op hosts hs ≡ some cs
    → final k cs ≡ some c
    → (c.op ≡ op) × At hosts hs k
unfolding changes_at final change_of
final-changes_at op hosts [] cs k c e f = absurd (ground arith)
final-changes_at op hosts (h ∷ hs) cs k c e f =
    let (r, rest, a, b, same) = changes_at-cons op hosts h hs cs e in
    elim (final-cons_some k (change_of op r) rest c (rw same at f)) [
      | inl g ↦
          let (o, (h', r', i, at, key)) = final-changes_at op hosts hs rest k c b g in
          (o, (h', r', inr i, at, key))
      | inr (g, key) ↦ (ground arith, (h, r, inl refl, a, key))
    ]

pub changes_at-final :
    (op : Operation) (hosts : StrMap Resource) (hs : List String) (cs : List ResourceChange)
    (k : String)
    → changes_at op hosts hs ≡ some cs
    → At hosts hs k
    → (c : ResourceChange) × (final k cs ≡ some c)
unfolding change_of
changes_at-final op hosts [] cs k e (h, r, i, a, key) = absurd i
changes_at-final op hosts (x ∷ hs) cs k e (h, r, inl i, a, key) =
    let (r', rest, a', b, same) = changes_at-cons op hosts x hs cs e in
    rw same (final-cons_found k (change_of op r') rest (inl (ground arith)))
changes_at-final op hosts (x ∷ hs) cs k e (h, r, inr i, a, key) =
    let (r', rest, a', b, same) = changes_at-cons op hosts x hs cs e in
    rw same (
      final-cons_found k (change_of op r') rest
        (inr (changes_at-final op hosts hs rest k b (h, r, i, a, key))))

-- ===== src/Configuration/Changes/Replaced.antt =====
-- The delete changes of `createResourceChanges` for hosts that went to another resource.
use kubernetes_ingress.Prelude.{
  String, ◌≢◌, ◌≡◌, refl, inl, inr, false, not, some, List, [], ◌∷◌, StrMap, lookup, arith, ◌==◌,
  eq_iff, if◌then◌else◌, Bool-cases, Option-cases, In,
}
use kubernetes_ingress.Resource.{Resource, get_key_with_kind}
use kubernetes_ingress.Configuration.{ResourceChange, Operation}
use kubernetes_ingress.Configuration.Changes.{change_of, replaced_at}
use kubernetes_ingress.Configuration.Changes.Squash.{final}
use kubernetes_ingress.Configuration.Changes.Detect.{final-cons_some, final-cons_found}

-- A host that goes from a resource with the key to one with another.
abbrev pub ReplacedAt : StrMap Resource → StrMap Resource → List String → String → Type 0
ReplacedAt hosts new_hosts hs k =
    (h : String) × (old_r : Resource) × (r : Resource) × In h hs
    × (lookup h hosts ≡ some old_r)
    × (lookup h new_hosts ≡ some r)
    × (get_key_with_kind old_r ≡ k)
    × (get_key_with_kind r ≢ k)

replaced_at-cons :
    (m n : StrMap Resource) (h : String) (hs : List String) (cs : List ResourceChange)
    → replaced_at m n (h ∷ hs) ≡ some cs
    → (old_r : Resource) × (r : Resource) × (rest : List ResourceChange) × (lookup h m ≡ some old_r)
      × (lookup h n ≡ some r)
      × (replaced_at m n hs ≡ some rest)
      × (cs ≡ (
          if not (get_key_with_kind old_r == get_key_with_kind r)
          then change_of Operation.delete old_r ∷ rest
          else rest))
unfolding replaced_at
replaced_at-cons m n h hs cs e = elim (Option-cases (lookup h m)) [
  | inl z ↦ absurd (ground arith)
  | inr (old_r, a) ↦ elim (Option-cases (lookup h n)) [
    | inl z ↦ absurd (ground arith)
    | inr (r, b) ↦ elim (Option-cases (replaced_at m n hs)) [
      | inl z ↦ absurd (ground arith)
      | inr (rest, g) ↦ (old_r, r, rest, a, b, g, ground arith)
    ]
  ]
]

pub replaced_at-total :
    (m n : StrMap Resource) (hs : List String)
    → ((h : String)
        → In h hs
        → (old_r : Resource) × (r : Resource) × (lookup h m ≡ some old_r) × (lookup h n ≡ some r))
    → (cs : List ResourceChange) × (replaced_at m n hs ≡ some cs)
unfolding replaced_at
replaced_at-total m n [] found = ([], refl)
replaced_at-total m n (h ∷ hs) found =
    let (old_r, r, a, b) = found h (inl refl) in
    let (cs, f) = replaced_at-total m n hs (λ x i. found x (inr i)) in
    (
      (if not (get_key_with_kind old_r == get_key_with_kind r)
          then change_of Operation.delete old_r ∷ cs
          else cs),
      rw (a, b, f),
    )

pub final-replaced_at :
    (m n : StrMap Resource) (hs : List String) (cs : List ResourceChange) (k : String)
    (c : ResourceChange)
    → replaced_at m n hs ≡ some cs
    → final k cs ≡ some c
    → (c.op ≡ Operation.delete) × ReplacedAt m n hs k
unfolding replaced_at final change_of
final-replaced_at m n [] cs k c e f = absurd (ground arith)
final-replaced_at m n (h ∷ hs) cs k c e f =
    let (old_r, r, rest, a, b, g, same) = replaced_at-cons m n h hs cs e in
    let later = λ (q : final k rest ≡ some c).
      let (o, (h', old', r', i, at, at', key, key')) = final-replaced_at m n hs rest k c g q in
      let res : (c.op ≡ Operation.delete) × ReplacedAt m n (h ∷ hs) k =
        (o, (h', old', r', inr i, at, at', key, key')) in
      res in
    elim (Bool-cases (get_key_with_kind old_r == get_key_with_kind r)) [
      | inl s ↦ later (ground arith)
      | inr s ↦ elim (final-cons_some k (change_of Operation.delete old_r) rest c (ground arith)) [
        | inl q ↦ later q
        | inr (q, key) ↦ (
          ground arith,
          (
            h,
            old_r,
            r,
            inl refl,
            a,
            b,
            key,
            λ z. ground (arith, eq_iff (get_key_with_kind old_r) (get_key_with_kind r)),
          ),
        )
      ]
    ]

pub replaced_at-final :
    (m n : StrMap Resource) (hs : List String) (cs : List ResourceChange) (k : String)
    → replaced_at m n hs ≡ some cs
    → ReplacedAt m n hs k
    → (c : ResourceChange) × (final k cs ≡ some c)
unfolding change_of
replaced_at-final m n [] cs k e (h, old_r, r, i, _, _, _, _) = absurd i
replaced_at-final m n (x ∷ hs) cs k e (h, old_r, r, inl i, a, b, key, key') =
    let (old', r', rest, a', b', g, same) = replaced_at-cons m n x hs cs e in
    let here : (get_key_with_kind old' == get_key_with_kind r') ≡ false =
      ground (arith, eq_iff (get_key_with_kind old') (get_key_with_kind r')) in
    rw (same, here) (final-cons_found k (change_of Operation.delete old') rest (inl (ground arith)))
replaced_at-final m n (x ∷ hs) cs k e (h, old_r, r, inr i, a, b, key, key') =
    let (old', r', rest, a', b', g, same) = replaced_at-cons m n x hs cs e in
    let (c, found) = replaced_at-final m n hs rest k g (h, old_r, r, i, a, b, key, key') in
    elim (Bool-cases (get_key_with_kind old' == get_key_with_kind r')) [
      | inl z ↦ (c, rw (same, z) found)
      | inr z ↦
          rw (same, z) (final-cons_found k (change_of Operation.delete old') rest (inr (c, found)))
    ]

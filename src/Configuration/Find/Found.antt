-- ===== src/Configuration/Find/Found.antt =====
-- What the searches find.
use kubernetes_ingress.Prelude.{
  String, ◌≡◌, ◌↔◌, refl, inl, inr, Bool, true, false, List, [], ◌∷◌, In, if◌then◌else◌, lookup,
  some, Bool-cases, sorted_values, In-sorted_values, sorted_values-In, any, arith, sym, ap, ◌∙◌,
}
use kubernetes_ingress.Api.{VirtualServerRoute}
use kubernetes_ingress.Resource.{
  Resource, full_ingress, full_virtual_server, FullIngress, FullMinion, FullVirtualServer,
}
use kubernetes_ingress.References.{ReferenceChecker}
use kubernetes_ingress.Configuration.{Configuration}
use kubernetes_ingress.Configuration.Find.{
  references, filter_resources, find_resources_for_resource_reference,
}

filter_resources-In :
    (p : Resource → Bool) (rs : List Resource) (r : Resource)
    → In r (filter_resources p rs)
    → In r rs × (p r ≡ true)
unfolding filter_resources
filter_resources-In p [] r i = absurd i
filter_resources-In p (x ∷ rs) r i = at_test (p x) refl (filter_resources-In p rs r) i
  where
    at_test :
        (b : Bool)
        → p x ≡ b
        → (In r (filter_resources p rs) → In r rs × (p r ≡ true))
        → In r (if b then x ∷ filter_resources p rs else filter_resources p rs)
        → In r (x ∷ rs) × (p r ≡ true)
    at_test true e ih (inl same) = (inl same, ap p same ∙ e)
    at_test true e ih (inr j) = let (k, q) = ih j in (inr k, q)
    at_test false e ih j = let (k, q) = ih j in (inr k, q)

In-filter_resources :
    (p : Resource → Bool) (rs : List Resource) (r : Resource)
    → In r rs
    → p r ≡ true
    → In r (filter_resources p rs)
unfolding filter_resources
In-filter_resources p [] r i h = absurd i
In-filter_resources p (x ∷ rs) r (inl e) h = let h' : p x ≡ true = ap p (sym e) ∙ h in rw h' (inl e)
In-filter_resources p (x ∷ rs) r (inr i) h =
    let ih = In-filter_resources p rs r i h in
    elim (Bool-cases (p x)) [ inl e ↦ rw e (inr ih) | inr e ↦ rw e ih ]

-- The object is referenced by the resource itself, or by one of its minions or routes.
pub data References (checker : ReferenceChecker) (namespace name : String) : Resource → Type 0 where
  by_ingress :
      (fi : FullIngress)
      → checker.is_referenced_by_ingress namespace name fi.ingress ≡ true
      → References checker namespace name (full_ingress fi)
  by_minion :
      (fi : FullIngress) (fm : FullMinion)
      → In fm fi.minions
      → checker.is_referenced_by_minion namespace name fm.ingress ≡ true
      → References checker namespace name (full_ingress fi)
  by_virtual_server :
      (fvs : FullVirtualServer)
      → checker.is_referenced_by_virtual_server namespace name fvs.virtual_server ≡ true
      → References checker namespace name (full_virtual_server fvs)
  by_virtual_server_route :
      (fvs : FullVirtualServer) (vsr : VirtualServerRoute)
      → In vsr fvs.virtual_server_routes
      → checker.is_referenced_by_virtual_server_route namespace name vsr ≡ true
      → References checker namespace name (full_virtual_server fvs)

or_else : (b : Bool) {c : Bool} → c ≡ true → (if b then true else c) ≡ true
or_else true h = refl
or_else false h = h

any-In :
    {A : Type 0} → (p : A → Bool) (xs : List A) → any p xs ≡ true → (x : A) × In x xs × (p x ≡ true)
any-In p [] h = absurd (ground arith)
any-In p (x ∷ xs) h = elim (Bool-cases (p x)) [
  | inl e ↦ (x, inl refl, e)
  | inr e ↦ let (y, i, q) = any-In p xs (rw e at h) in (y, inr i, q)
]

In-any :
    {A : Type 0} → (p : A → Bool) (xs : List A) (x : A) → In x xs → p x ≡ true → any p xs ≡ true
In-any p [] x i h = absurd i
In-any p (y ∷ ys) x (inl e) h = let h' : p y ≡ true = ap p (sym e) ∙ h in rw h' refl
In-any p (y ∷ ys) x (inr i) h =
    let ih = In-any p ys x i h in elim (Bool-cases (p y)) [ inl e ↦ rw e refl | inr e ↦ rw e ih ]

references-References :
    (checker : ReferenceChecker) (namespace name : String) (r : Resource)
    → references checker namespace name r ≡ true
    → References checker namespace name r
unfolding references
references-References checker namespace name (full_ingress fi) h =
    elim (Bool-cases (checker.is_referenced_by_ingress namespace name fi.ingress)) [
      | inl e ↦ by_ingress fi e
      | inr e ↦
          let (fm, i, m) =
            any-In (λ (fm : FullMinion). checker.is_referenced_by_minion namespace name fm.ingress)
              fi.minions (rw e at h) in
          by_minion fi fm i m
    ]
references-References checker namespace name (full_virtual_server fvs) h =
    elim (Bool-cases (checker.is_referenced_by_virtual_server namespace name fvs.virtual_server)) [
      | inl e ↦ by_virtual_server fvs e
      | inr e ↦
          let (vsr, i, m) =
            any-In (λ vsr. checker.is_referenced_by_virtual_server_route namespace name vsr)
              fvs.virtual_server_routes (rw e at h) in
          by_virtual_server_route fvs vsr i m
    ]

References-references :
    (checker : ReferenceChecker) (namespace name : String) (r : Resource)
    → References checker namespace name r
    → references checker namespace name r ≡ true
unfolding references
References-references checker namespace name _ (by_ingress fi h) = rw h refl
References-references checker namespace name _ (by_minion fi fm i h) =
    or_else (checker.is_referenced_by_ingress namespace name fi.ingress) (
      In-any (λ (fm : FullMinion). checker.is_referenced_by_minion namespace name fm.ingress)
        fi.minions fm i h)
References-references checker namespace name _ (by_virtual_server fvs h) = rw h refl
References-references checker namespace name _ (by_virtual_server_route fvs vsr i h) =
    or_else (checker.is_referenced_by_virtual_server namespace name fvs.virtual_server) (
      In-any (λ vsr. checker.is_referenced_by_virtual_server_route namespace name vsr)
        fvs.virtual_server_routes vsr i h)

-- A resource is found if and only if it holds a host and references the object, itself or in one of
-- its minions or routes.
pub find_resources_iff :
    (namespace name : String) (checker : ReferenceChecker) (c : Configuration) (r : Resource)
    → In r (find_resources_for_resource_reference namespace name checker c)
      ↔ (((host : String) × (lookup host c.hosts ≡ some r)) × References checker namespace name r)
unfolding find_resources_for_resource_reference
find_resources_iff namespace name checker c r = (
  (λ i.
      let (m, h) =
        filter_resources-In (references checker namespace name) (sorted_values c.hosts) r i in
      (sorted_values-In c.hosts r m, references-References checker namespace name r h)),
  λ z.
      let ((host, e), h) = z in
      In-filter_resources (references checker namespace name) (sorted_values c.hosts) r
        (In-sorted_values c.hosts host r e) (References-references checker namespace name r h),
)

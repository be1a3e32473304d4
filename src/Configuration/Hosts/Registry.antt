-- ===== src/Configuration/Hosts/Registry.antt =====
-- The resources by their keys: `newResources` holds exactly the objects of the heap. And what a new
-- object does to the invariants.
use kubernetes_ingress.Prelude.{
  ℕ, String, ◌≡◌, sym, ◌∙◌, ◌⊎◌, inl, inr, false, none, some, lookup, lookup-insert, arith,
  Bool-cases, Option-cases, subst, ◌==◌, eq_iff, eqb, eqb_iff, length, if◌then◌else◌,
}
use kubernetes_ingress.Resource.{Resource, get_key_with_kind}
use kubernetes_ingress.Configuration.Hosts.{HostBuild, allocate}
use kubernetes_ingress.Configuration.Hosts.Effects.{
  Origin, origin, origin_key, origin_at, marked, origin_at-append, marked_at-append,
  origin_at-bound, get_key_with_kind-origin,
}
use kubernetes_ingress.Configuration.Hosts.Fairness.{OriginClaims, Beaten, IsFair}
use kubernetes_ingress.Configuration.Hosts.Claims.{Frame}

pub record IsRegistered (s : HostBuild) : Type 0 where
  pub entered :
      (a : ℕ) (o : Origin)
      → origin_at s.heap a ≡ some o
      → lookup (origin_key o) s.resources ≡ some a
  pub entry :
      (k : String) (a : ℕ)
      → lookup k s.resources ≡ some a
      → (o : Origin) × (origin_at s.heap a ≡ some o) × (origin_key o ≡ k)

pub Frame-IsRegistered : (s t : HostBuild) → Frame s t → IsRegistered s → IsRegistered t
Frame-IsRegistered s t f r = record {
  entered = λ a o at. rw f.resources_eq (r.entered a o (sym (f.origins_eq a) ∙ at));
  entry = λ k a look.
      let (o, at, key) = r.entry k a (rw f.resources_eq at look) in (o, f.origins_eq a ∙ at, key);
}

module _ (r : Resource) (s : HostBuild) where
  pub allocate-origin : origin_at (allocate r s).heap (length s.heap) ≡ some (origin r)
  unfolding allocate
  allocate-origin = ground (arith, origin_at-append s.heap r (length s.heap))

  pub allocate-origins :
      (a : ℕ)
      → origin_at (allocate r s).heap a
        ≡ (if eqb a (length s.heap) then some (origin r) else origin_at s.heap a)
  unfolding allocate
  allocate-origins a = origin_at-append s.heap r a

  pub allocate-resources :
      (k : String)
      → lookup k (allocate r s).resources
        ≡ (if origin_key (origin r) == k then some (length s.heap) else lookup k s.resources)
  unfolding allocate
  allocate-resources k =
      rw (← get_key_with_kind-origin r)
        (lookup-insert (get_key_with_kind r) k (length s.heap) s.resources)

  pub allocate-IsRegistered :
      lookup (origin_key (origin r)) s.resources ≡ none
      → IsRegistered s
      → IsRegistered (allocate r s)
  allocate-IsRegistered fresh reg = record {
    entered = λ a o at. elim (Bool-cases (eqb a (length s.heap))) [
      | inl e ↦
          let same : origin r ≡ o = ground (arith, allocate-origins a) in
          ground (
            arith,
            allocate-resources (origin_key o),
            eq_iff (origin_key (origin r)) (origin_key o),
            eqb_iff a (length s.heap),
          )
      | inr e ↦
          let look = reg.entered a o (ground (arith, allocate-origins a)) in
          ground (
            arith,
            allocate-resources (origin_key o),
            eq_iff (origin_key (origin r)) (origin_key o),
          )
    ];
    entry = λ k a look. elim (Bool-cases (origin_key (origin r) == k)) [
      | inl e ↦ (
        origin r,
        ground (arith, allocate-origins a, allocate-resources k),
        (eq_iff (origin_key (origin r)) k).0 e,
      )
      | inr e ↦
          let (o, at, key) = reg.entry k a (ground (arith, allocate-resources k)) in
          (o, ground (arith, allocate-origins a, origin_at-bound s.heap a o at), key)
    ];
  }

  -- The new resource has still to claim its hosts.
  pub allocate-IsFair :
      (P : ℕ → String → Type 0)
      → ((h : String) → marked r h ≡ false)
      → ((h : String) → OriginClaims (origin r) h → P (length s.heap) h)
      → IsFair (λ a h. ⊥) s
      → IsFair P (allocate r s)
  unfolding allocate
  allocate-IsFair P unmarked claims fair = record {
    best = λ a o h at c. elim (Bool-cases (eqb a (length s.heap))) [
      | inl e ↦
          let here : a ≡ length s.heap = (eqb_iff a (length s.heap)).0 e in
          let same : origin r ≡ o = ground (arith, origin_at-append s.heap r a) in
          inl
            (subst (λ x. P x h) (sym here) (claims h (subst (λ x. OriginClaims x h) (sym same) c)))
      | inr e ↦ later a o h (fair.best a o h (ground (arith, origin_at-append s.heap r a)) c)
    ];
    owner = λ h b look.
        let (o, at, c) = fair.owner h b look in
        (o, ground (arith, origin_at-append s.heap r b, origin_at-bound s.heap b o at), c);
    marks = λ a i h at. elim (Option-cases (lookup h s.hosts)) [
      | inl n ↦ ground (
        arith,
        marked_at-append s.heap r a h,
        origin_at-append s.heap r a,
        unmarked h,
        fair.marks a i h,
      )
      | inr (b, look) ↦
          let (o, atb, _) = fair.owner h b look in
          ground (
            arith,
            marked_at-append s.heap r a h,
            origin_at-append s.heap r a,
            unmarked h,
            fair.marks a i h,
            origin_at-bound s.heap b o atb,
          )
    ];
  }
    where
      later :
          (a : ℕ) (o : Origin) (h : String) → ⊥ ⊎ Beaten s o h → P a h ⊎ Beaten (allocate r s) o h
      later a o h (inl z) = absurd z
      later a o h (inr (b, ob, look, atb, w)) = inr (
        b,
        ob,
        look,
        ground (arith, origin_at-append s.heap r b, origin_at-bound s.heap b ob atb),
        w,
      )

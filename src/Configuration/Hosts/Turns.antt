-- ===== src/Configuration/Hosts/Turns.antt =====
-- One turn of the loops that give out hosts keeps the invariant, whoever gets the host.
use kubernetes_ingress.Prelude.{
  ℕ, String, ◌≡◌, sym, ◌∙◌, ◌⊎◌, inl, inr, true, false, some, lookup, lookup-insert, arith, ◌==◌,
  eq_iff, eqb_iff, if◌then◌else◌, Bool-cases, subst,
}
use kubernetes_ingress.Resource.{choose_object_meta_winner}
use kubernetes_ingress.Resource.Order.{winner_asymm, winner_irrefl, winner_neg_trans}
use kubernetes_ingress.Configuration.Hosts.{HostBuild}
use kubernetes_ingress.Configuration.Hosts.Effects.{Origin, origin_meta, origin_at}
use kubernetes_ingress.Configuration.Hosts.Fairness.{
  OriginClaims, Beaten, IsFair, Gives, Keeps, Settles,
}

module _ (P Q : ℕ → String → Type 0) (a : ℕ) (oa : Origin) (host : String) (s : HostBuild)
    (fair : IsFair P s) (claim : OriginClaims oa host) (settles : Settles P Q a host) where
  given_lookup :
      (t : HostBuild)
      → Gives a oa host s t
      → (h : String) → lookup h t.hosts ≡ (if host == h then some a else lookup h s.hosts)
  given_lookup t g h = rw g.hosts_eq (lookup-insert host h a s.hosts)

  given_best :
      (t : HostBuild) (g : Gives a oa host s t)
      → ((c : ℕ) (oc : Origin)
          → lookup host s.hosts ≡ some c
          → origin_at s.heap c ≡ some oc
          → choose_object_meta_winner (origin_meta oc) (origin_meta oa) ≡ false)
      → (b : ℕ) (o : Origin) (h : String) → origin_at s.heap b ≡ some o
      → (host == h) ≡ true
      → P b h ⊎ Beaten s o h
      → Q b h ⊎ Beaten t o h
  given_best t g weak b o h at e (inl p) = elim (settles b h p) [
    | inl q ↦ inl q
    | inr (same, _) ↦ inr (
      a,
      oa,
      ground (arith, given_lookup t g h),
      g.origins_eq a ∙ g.at,
      ground (arith, winner_irrefl (origin_meta oa), g.at),
    )
  ]
  given_best t g weak b o h at e (inr (c, oc, look, atc, w)) = inr (
    a,
    oa,
    ground (arith, given_lookup t g h),
    g.origins_eq a ∙ g.at,
    winner_neg_trans (origin_meta o) (origin_meta oc) (origin_meta oa) w
        (weak c oc (rw ((eq_iff host h).0 e) look) atc),
  )

  other_best :
      (t : HostBuild) (g : Gives a oa host s t) (b : ℕ) (o : Origin) (h : String)
      → (host == h) ≡ false
      → P b h ⊎ Beaten s o h
      → Q b h ⊎ Beaten t o h
  other_best t g b o h e (inl p) = elim (settles b h p) [
    | inl q ↦ inl q
    | inr (_, same) ↦ absurd (ground (arith, eq_iff host h))
  ]
  other_best t g b o h e (inr (c, oc, look, atc, w)) =
      inr (c, oc, ground (arith, given_lookup t g h), g.origins_eq c ∙ atc, w)

  -- The host goes to `a`, whom the holder, if there is one, does not beat.
  pub Gives-IsFair :
      (t : HostBuild)
      → Gives a oa host s t
      → ((c : ℕ) (oc : Origin)
          → lookup host s.hosts ≡ some c
          → origin_at s.heap c ≡ some oc
          → choose_object_meta_winner (origin_meta oc) (origin_meta oa) ≡ false)
      → IsFair Q t
  Gives-IsFair t g weak = record {
    best = λ b o h at c.
        let at' = sym (g.origins_eq b) ∙ at in
        elim (Bool-cases (host == h)) [
          | inl e ↦ given_best t g weak b o h at' e (fair.best b o h at' c)
          | inr e ↦ other_best t g b o h e (fair.best b o h at' c)
        ];
    owner = λ h b look. elim (Bool-cases (host == h)) [
      | inl e ↦
          let same : a ≡ b = ground (arith, given_lookup t g h) in
          (
            oa,
            g.origins_eq b ∙ subst (λ x. origin_at s.heap x ≡ some oa) same g.at,
            subst (OriginClaims oa) ((eq_iff host h).0 e) claim,
          )
      | inr e ↦
          let (o, at, c) = fair.owner h b (ground (arith, given_lookup t g h)) in
          (o, g.origins_eq b ∙ at, c)
    ];
    marks = λ b i h at. ground (
      arith,
      given_lookup t g h,
      g.marks_eq b h,
      fair.marks b i h (sym (g.origins_eq b) ∙ at),
      g.origins_eq b,
      g.at,
      eqb_iff a b,
      eq_iff host h,
    );
  }

  -- The holder at `c` keeps the host, since it beats `a`.
  pub Keeps-IsFair :
      (t : HostBuild) (c : ℕ) (oc : Origin)
      → Keeps s t
      → origin_at s.heap a ≡ some oa
      → lookup host s.hosts ≡ some c
      → origin_at s.heap c ≡ some oc
      → choose_object_meta_winner (origin_meta oc) (origin_meta oa) ≡ true
      → IsFair Q t
  Keeps-IsFair t c oc k ata look atc w = record {
    best = λ b o h at cl.
        kept_best b o h (sym (k.origins_eq b) ∙ at)
          (fair.best b o h (sym (k.origins_eq b) ∙ at) cl);
    owner = λ h b found.
        let (o, at, cl) = fair.owner h b (rw k.hosts_eq at found) in (o, k.origins_eq b ∙ at, cl);
    marks =
        λ b i h at. k.marks_eq b h ∙ (fair.marks b i h (sym (k.origins_eq b) ∙ at) ∙ rw k.hosts_eq);
  }
    where
      kept_best :
          (b : ℕ) (o : Origin) (h : String)
          → origin_at s.heap b ≡ some o
          → P b h ⊎ Beaten s o h
          → Q b h ⊎ Beaten t o h
      kept_best b o h at (inl p) = elim (settles b h p) [
        | inl q ↦ inl q
        | inr (same, here) ↦ inr (
          c,
          oc,
          rw (k.hosts_eq, here) look,
          k.origins_eq c ∙ atc,
          ground (arith, winner_asymm (origin_meta oc) (origin_meta oa)),
        )
      ]
      kept_best b o h at (inr (d, od, found, atd, w')) =
          inr (d, od, rw k.hosts_eq found, k.origins_eq d ∙ atd, w')

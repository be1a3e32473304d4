-- ===== src/CustomResources/Listeners/Unique.antt =====
-- The names and ports of listeners without errors.
use kubernetes_ingress.Prelude.{
  ℕ, suc, ℤ, pos, negsuc, leq, String, ◌≡◌, refl, subst, inl, inr, eq_iff, Bool, true, List, [],
  ◌∷◌, map, In, Distinct, append-[], arith, Bool-cases,
}
use kubernetes_ingress.Api.Alpha.{Listener}
use kubernetes_ingress.Parsing.Strings.{contains}
use kubernetes_ingress.Parsing.Members.{contains-In}
use kubernetes_ingress.Validation.Errors.{FieldPath, index, ErrorList}
use kubernetes_ingress.CustomResources.Checks.{Checks}
use kubernetes_ingress.CustomResources.Listeners.{
  PortProtocolKey, generate_port_protocol_key, same_port, has_key, Seen, validate_listener,
  add_listener, validate_listeners_from, validate_listeners, validate_global_configuration,
}

same_port_refl : (n : ℤ) → same_port n n ≡ true
unfolding same_port leq
same_port_refl (pos n) = ground arith
same_port_refl (negsuc n) = ground arith

has_key-In :
    (keys : List PortProtocolKey) (key : PortProtocolKey) → In key keys → has_key keys key ≡ true
unfolding has_key
has_key-In [] key i = absurd i
has_key-In (k ∷ ks) key (inl e) =
    subst (λ z. has_key (z ∷ ks) key ≡ true) e
      (rw (same_port_refl key.0, (eq_iff key.1 key.1).1 refl) refl)
has_key-In (k ∷ ks) key (inr j) = ground (arith, has_key-In ks key j)

-- A listener that is added without an error has a new name and a new key.
add_listener-new :
    (errs : ErrorList) (l : Listener) (path : FieldPath) (i : ℕ) (seen : Seen)
    → (add_listener errs l path i seen).0 ≡ []
    → ¬ (In l.name seen.listener_names)
      × ¬ (In (generate_port_protocol_key l) seen.port_protocol_combinations)
      × ((add_listener errs l path i seen).1 ≡ record {
        listener_names = l.name ∷ seen.listener_names;
        port_protocol_combinations = generate_port_protocol_key l ∷ seen.port_protocol_combinations;
      })
unfolding add_listener
add_listener-new (x ∷ xs) l path i seen h = absurd (ground (arith, h))
add_listener-new [] l path i seen h = elim (Bool-cases (contains seen.listener_names l.name)) [
  | inl c ↦ absurd (ground (arith, rw c at h))
  | inr c ↦
      elim (Bool-cases (has_key seen.port_protocol_combinations (generate_port_protocol_key l))) [
        | inl k ↦ absurd (ground (arith, rw (c, k) at h))
        | inr k ↦ (
          (λ i. ground (arith, c, (contains-In seen.listener_names l.name).1 i)),
          (λ i. ground (
            arith,
            k,
            has_key-In seen.port_protocol_combinations (generate_port_protocol_key l) i,
          )),
          rw (c, k) refl,
        )
      ]
]

-- Listeners with different names and keys, which are not among those seen.
record AreNew (seen : Seen) (ls : List Listener) : Type 0 where
  names : Distinct (map (λ l. l.name) ls)
  keys : Distinct (map generate_port_protocol_key ls)
  fresh_names : (x : String) → In x seen.listener_names → ¬ (In x (map (λ l. l.name) ls))
  fresh_keys :
      (k : PortProtocolKey)
      → In k seen.port_protocol_combinations
      → ¬ (In k (map generate_port_protocol_key ls))

AreNew-∷ :
    (seen : Seen) (l : Listener) (ls : List Listener)
    → ¬ (In l.name seen.listener_names)
    → ¬ (In (generate_port_protocol_key l) seen.port_protocol_combinations)
    → AreNew
        (record {
          listener_names = l.name ∷ seen.listener_names;
          port_protocol_combinations =
              generate_port_protocol_key l ∷ seen.port_protocol_combinations;
        })
        ls
    → AreNew seen (l ∷ ls)
AreNew-∷ seen l ls new_name new_key new = record {
  names = (new.fresh_names l.name (inl refl), new.names);
  keys = (new.fresh_keys (generate_port_protocol_key l) (inl refl), new.keys);
  fresh_names = λ x i j. elim j [
    | inl e ↦ new_name (subst (λ y. In y seen.listener_names) e i)
    | inr k ↦ new.fresh_names x (inr i) k
  ];
  fresh_keys = λ x i j. elim j [
    | inl e ↦ new_key (subst (λ y. In y seen.port_protocol_combinations) e i)
    | inr k ↦ new.fresh_keys x (inr i) k
  ];
}

module _ (checks : Checks) (forbidden_listener_ports : ℤ → Bool) where
  validate_listeners_from-AreNew :
      (i : ℕ) (seen : Seen) (ls : List Listener) (path : FieldPath)
      → validate_listeners_from checks forbidden_listener_ports i seen ls path ≡ []
      → AreNew seen ls
  unfolding validate_listeners_from
  validate_listeners_from-AreNew i seen [] path h = record {
    names = tt;
    keys = tt;
    fresh_names = λ x _ n. n;
    fresh_keys = λ x _ n. n;
  }
  validate_listeners_from-AreNew i seen (l ∷ ls) path h =
      let errs = validate_listener checks forbidden_listener_ports l (index path i) in
      let added = add_listener errs l path i seen in
      let (ok, rest) =
        append-[] added.0
          (validate_listeners_from checks forbidden_listener_ports (suc i) added.1 ls path) h in
      let (new_name, new_key, seen') = add_listener-new errs l path i seen ok in
      AreNew-∷ seen l ls new_name new_key (
        subst (λ s. AreNew s ls) seen'
          (validate_listeners_from-AreNew (suc i) added.1 ls path rest))

  -- The listeners of a GlobalConfiguration that is validated without errors have different names, and no
  -- two of them have both the same port and the same protocol.
  pub validate_global_configuration-unique :
      (ls : List Listener)
      → validate_global_configuration checks forbidden_listener_ports ls ≡ []
      → Distinct (map (λ l. l.name) ls) × Distinct (map generate_port_protocol_key ls)
  unfolding validate_global_configuration validate_listeners
  validate_global_configuration-unique ls h =
      let new = validate_listeners_from-AreNew 0 _ ls _ h in (new.names, new.keys)

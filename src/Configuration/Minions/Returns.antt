-- ===== src/Configuration/Minions/Returns.antt =====
-- `buildFullMinions` does not panic on Ingresses that have rules, and paths where they are minions:
-- the holder of a path is always one of the minions so far.
use kubernetes_ingress.Prelude.{
  ℕ, String, ◌≡◌, ◌<◌, refl, ◌∙◌, inl, inr, true, false, some, List, [], ◌∷◌, StrMap, lookup,
  insert, lookup-insert, length, append, get_elem?-in_bounds, length-update, update, ◌+◌, arith,
  Bool-cases, Option-cases, fold_while_inv, In, ◌==◌, ◌++◌, sorted_values,
}
use kubernetes_ingress.Api.{Ingress, IngressPath, is_minion, get_resource_key}
use kubernetes_ingress.Resource.{FullMinion, new_full_minion, choose_object_meta_winner}
use kubernetes_ingress.Configuration.{Configuration}
use kubernetes_ingress.Configuration.Minions.{
  MinionBuild, first_host, first_paths, claim_path, add_minion, build_full_minions, set_path,
  warn_child,
}

-- The code can read the first rule of the Ingress, and of a minion its paths.
pub record HasRules (ing : Ingress) : Type 0 where
  pub host : (h : String) × (first_host ing ≡ some h)
  pub paths : is_minion ing ≡ true → (ps : List IngressPath) × (first_paths ing ≡ some ps)

record IsBounded (n : ℕ) (s : MinionBuild) : Type 0 where
  count : length s.full_minions ≡ n
  bound : (p : String) (h : ℕ) → lookup p s.paths ≡ some h → h < n

insert-bound :
    (n a : ℕ) (path : String) (paths : StrMap ℕ)
    → a < n
    → ((p : String) (h : ℕ) → lookup p paths ≡ some h → h < n)
    → (p : String) (h : ℕ) → lookup p (insert path a paths) ≡ some h
    → h < n
insert-bound n a path paths here b p h l = elim (Bool-cases (path == p)) [
  | inl e ↦ let same : a ≡ h = ground (arith, lookup-insert path p a paths) in ground arith
  | inr e ↦ b p h (ground (arith, lookup-insert path p a paths))
]

claim_path-IsBounded :
    (n a : ℕ) (ing : Ingress) (s : MinionBuild) (p : IngressPath)
    → a < n
    → IsBounded n s
    → (t : MinionBuild) × (claim_path a ing s p ≡ some t) × IsBounded n t
unfolding claim_path
claim_path-IsBounded n a ing s p here b = elim (Option-cases (lookup p.path s.paths)) [
  | inl free ↦ (
    record s {
      paths = insert p.path a s.paths;
      full_minions = update a (set_path p.path true) s.full_minions;
    },
    rw (free, claim_path) refl,
    record {
      count = length-update (set_path p.path true) s.full_minions a ∙ b.count;
      bound = insert-bound n a p.path s.paths here b.bound;
    },
  )
  | inr (c, look) ↦
      let inside : c < length s.full_minions = rw b.count (b.bound p.path c look) in
      let warning = "path " ++ p.path ++ " is taken by another resource" in
      let (holder, g) = get_elem?-in_bounds s.full_minions c inside in
      elim (Bool-cases (choose_object_meta_winner holder.ingress.meta ing.meta)) [
        | inl w ↦ (
          record s {
            child_warnings = warn_child (get_resource_key ing.meta) warning s.child_warnings;
          },
          rw (look, claim_path) (rw g (rw w refl)),
          record { count = b.count; bound = b.bound },
        )
        | inr w ↦ (
          record s {
            paths = insert p.path a s.paths;
            full_minions =
                update c (set_path p.path false) (update a (set_path p.path true) s.full_minions);
            child_warnings =
                warn_child (get_resource_key holder.ingress.meta) warning s.child_warnings;
          },
          rw (look, claim_path) (rw g (rw w refl)),
          record {
            count =
                length-update (set_path p.path false)
                  (update a (set_path p.path true) s.full_minions) c
                ∙ (length-update (set_path p.path true) s.full_minions a ∙ b.count);
            bound = insert-bound n a p.path s.paths here b.bound;
          },
        )
      ]
]

length-append_one : {A : Type 0} (xs : List A) (x : A) → length (append xs x) ≡ length xs + 1
length-append_one [] x = refl
length-append_one (y ∷ xs) x = ground (arith, length-append_one xs x)

abbrev Bounded : MinionBuild → Type 0
Bounded s = IsBounded (length s.full_minions) s

add_minion-IsBounded :
    (master_host : String) (s : MinionBuild) (ing : Ingress)
    → HasRules ing
    → Bounded s
    → (t : MinionBuild) × (add_minion master_host s ing ≡ some t) × Bounded t
unfolding add_minion
add_minion-IsBounded master_host s ing r b = elim (Bool-cases (is_minion ing)) [
  | inr m ↦ (s, rw m refl, b)
  | inl m ↦
      let (host, eh) = r.host in
      let (paths, ep) = r.paths m in
      elim (Bool-cases (master_host == host)) [
        | inr other ↦ (s, rw m (rw eh (rw other refl)), b)
        | inl same ↦
            let n = length s.full_minions in
            let s₁ : MinionBuild = record s {
              full_minions = append s.full_minions (new_full_minion ing);
            } in
            let b₁ : IsBounded (n + 1) s₁ = record {
              count = length-append_one s.full_minions (new_full_minion ing);
              bound = λ q h l. ground (arith, b.bound q h l);
            } in
            let (t, e, bt) =
              fold_while_inv (λ todo u. IsBounded (n + 1) u) (claim_path n ing)
                (λ todo p u bu. claim_path-IsBounded (n + 1) n ing u p (omega arith) bu) s₁ paths
                b₁ in
            (
              t,
              rw m (rw eh (rw same (rw ep e))),
              record { count = refl; bound = λ q h l. ground (arith, bt.bound q h l, bt.count) },
            )
      ]
]

-- On such Ingresses the minions of any host are built.
pub build_full_minions_returns :
    (c : Configuration) (host : String)
    → ((ing : Ingress) → In ing (sorted_values c.ingresses) → HasRules ing)
    → (built : List FullMinion × StrMap (List String)) × (build_full_minions c host ≡ some built)
unfolding build_full_minions lookup
build_full_minions_returns c host r =
    let (s, e, _) =
      fold_while_inv (λ todo s. Bounded s × ((ing : Ingress) → In ing todo → HasRules ing))
        (add_minion host)
        (λ todo ing s p.
          let (t, e, b) = add_minion-IsBounded host s ing (p.1 ing (inl refl)) p.0 in
          (t, e, (b, λ i m. p.1 i (inr m))))
        (record { full_minions = []; child_warnings = []; paths = [] }) (sorted_values c.ingresses)
        (record { count = refl; bound = λ p h l. absurd (ground arith) }, r) in
    ((s.full_minions, s.child_warnings), rw e refl)

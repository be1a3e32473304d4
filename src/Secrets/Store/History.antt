-- ===== src/Secrets/Store/History.antt =====
-- What the users of the store see: after any uses of it, its references and its files are those of the
-- secrets last added.
use kubernetes_ingress.Prelude.{
  String, ◌≡◌, refl, sym, ap, ◌∙◌, inl, inr, Option, none, some, StrMap, lookup, insert, delete,
  lookup-insert, lookup-delete, arith, ◌==◌, Bool-cases, Option-cases, eq_iff, subst, if◌then◌else◌,
}
use kubernetes_ingress.Api.{get_resource_key}
use kubernetes_ingress.Secrets.{Secret, Crypto, validate_secret}
use kubernetes_ingress.Secrets.Store.{
  StoredSecret, SecretReference, SecretFileManager, LocalSecretStore, new_local_secret_store,
  rewrite, refresh, add_or_update_secret, delete_secret, get_secret_reference, missing_reference,
  reference_to,
}
use kubernetes_ingress.Secrets.Store.Synced.{
  FileView, IsFileManager, IsStored, IsSynced, expected, add_or_update_secret-IsSynced,
  delete_secret-IsSynced, get_secret_reference-IsSynced,
}

-- The secret last added at each key and not deleted since.
abbrev pub Latest : Type 0
Latest = String → Option Secret

module _ {F C : Type 0} (crypto : Crypto) (manager : SecretFileManager F) (Keys : String → Type 0)
    (view : FileView F C) (law : IsFileManager Keys view manager) where
  -- The uses of a store: its creation over files without secrets, and its three operations.
  pub data Uses : Latest → LocalSecretStore F → Type 0 where
    fresh :
        (files : F)
        → ((k : String) → Keys k → view.read files k ≡ none)
        → Uses (λ k. none) (new_local_secret_store crypto manager files)
    added :
        (secret : Secret) (latest : Latest) (s : LocalSecretStore F)
        → Uses latest s
        → Keys (get_resource_key secret.meta)
        → Uses
            (λ k. if get_resource_key secret.meta == k then some secret else latest k)
            (add_or_update_secret crypto manager secret s)
    deleted :
        (key : String) (latest : Latest) (s : LocalSecretStore F)
        → Uses latest s
        → Keys key
        → Uses (λ k. if key == k then none else latest k) (delete_secret crypto manager key s)
    referred :
        (key : String) (latest : Latest) (s : LocalSecretStore F)
        → Uses latest s
        → Keys key
        → Uses latest (get_secret_reference crypto manager key s).1

  Uses-IsSynced :
      (latest : Latest) (s : LocalSecretStore F)
      → Uses latest s
      → IsSynced crypto manager Keys view law s
  unfolding new_local_secret_store lookup
  Uses-IsSynced _ _ (fresh files empty) = record { files = empty; stored = λ k st l. cc }
  Uses-IsSynced _ _ (added secret latest s used known) =
      add_or_update_secret-IsSynced crypto manager Keys view law secret s
        (Uses-IsSynced latest s used) known
  Uses-IsSynced _ _ (deleted key latest s used known) =
      delete_secret-IsSynced crypto manager Keys view law key s (Uses-IsSynced latest s used) known
  Uses-IsSynced _ _ (referred key latest s used known) =
      get_secret_reference-IsSynced crypto manager Keys view law key s (Uses-IsSynced latest s used)

  -- The secret of an entry.
  abbrev secret_of : Option StoredSecret → Option Secret
  secret_of none = none
  secret_of (some stored) = some stored.secret

  insert-secret :
      (key : String) (new : StoredSecret) (secrets : StrMap StoredSecret) (k : String)
      → secret_of (lookup k (insert key new secrets))
        ≡ (if key == k then some new.secret else secret_of (lookup k secrets))
  insert-secret key new secrets k = ground (arith, lookup-insert key k new secrets)

  -- An entry that is replaced by one of the same secret.
  insert-same :
      (key : String) (st new : StoredSecret) (secrets : StrMap StoredSecret) (k : String)
      → lookup key secrets ≡ some st
      → new.secret ≡ st.secret
      → secret_of (lookup k (insert key new secrets)) ≡ secret_of (lookup k secrets)
  insert-same key st new secrets k e same = elim (Bool-cases (key == k)) [
    | inl z ↦
        insert-secret key new secrets k
        ∙ (rw z (
            ap some same
            ∙ sym (ap secret_of (ap (λ x. lookup x secrets) (sym ((eq_iff key k).0 z)) ∙ e))))
    | inr z ↦ insert-secret key new secrets k ∙ rw z refl
  ]

  refresh-secret :
      (secret : Secret) (path : String) (err : Option String) (files : F)
      → (refresh crypto manager secret path err files).0.secret ≡ secret
  unfolding refresh rewrite
  refresh-secret secret path none files = ground arith
  refresh-secret secret path (some e) files = ground arith

  reference_to-secret :
      (key : String) (st : StoredSecret) (s : LocalSecretStore F) (k : String)
      → lookup key s.secrets ≡ some st
      → secret_of (lookup k (reference_to crypto manager key st s).1.secrets)
        ≡ secret_of (lookup k s.secrets)
  unfolding reference_to
  reference_to-secret key st s k e = elim (Option-cases st.validation_err) [
    | inl v ↦ rw v (elim (Bool-cases (st.path == "")) [
      | inl p ↦ rw p (
          insert-same key st
            (record {
              secret = st.secret;
              path = (manager.add_or_update_secret st.secret s.files).0;
              validation_err = none;
            })
            s.secrets k e refl)
      | inr p ↦ rw p refl
    ])
    | inr (x, v) ↦ rw v refl
  ]

  get_secret_reference-secret :
      (key : String) (s : LocalSecretStore F) (k : String)
      → secret_of (lookup k (get_secret_reference crypto manager key s).1.secrets)
        ≡ secret_of (lookup k s.secrets)
  unfolding get_secret_reference
  get_secret_reference-secret key s k = at_entry (lookup key s.secrets) refl
    where
      at_entry :
          (o : Option StoredSecret)
          → lookup key s.secrets ≡ o
          → secret_of (
              lookup k
                (elim o as (λ _. SecretReference × LocalSecretStore F) [
                  | none ↦ (missing_reference crypto manager, s)
                  | some st ↦ reference_to crypto manager key st s
                ]).1.secrets)
            ≡ secret_of (lookup k s.secrets)
      at_entry none e = refl
      at_entry (some st) e = reference_to-secret key st s k e

  delete_secret-secret :
      (key : String) (s : LocalSecretStore F) (k : String)
      → secret_of (lookup k (delete_secret crypto manager key s).secrets)
        ≡ (if key == k then none else secret_of (lookup k s.secrets))
  unfolding delete_secret
  delete_secret-secret key s k = at_entry (lookup key s.secrets) refl
    where
      at_entry :
          (o : Option StoredSecret)
          → lookup key s.secrets ≡ o
          → secret_of (
              lookup k
                (elim o as (λ _. LocalSecretStore F) [
                  | none ↦ s
                  | some st ↦ record {
                    secrets = delete key s.secrets;
                    files = if st.path == "" then s.files else manager.delete_secret key s.files;
                  }
                ]).secrets)
            ≡ (if key == k then none else secret_of (lookup k s.secrets))
      at_entry none e = elim (Bool-cases (key == k)) [
        | inl z ↦
            rw z
              (ap (λ x. secret_of (lookup x s.secrets)) (sym ((eq_iff key k).0 z)) ∙ ap secret_of e)
        | inr z ↦ rw z refl
      ]
      at_entry (some st) e = ground (arith, lookup-delete key k s.secrets)

  -- The secrets of the entries are those last added.
  Uses-latest :
      (latest : Latest) (s : LocalSecretStore F)
      → Uses latest s
      → (k : String) → secret_of (lookup k s.secrets) ≡ latest k
  unfolding new_local_secret_store add_or_update_secret
  Uses-latest _ _ (fresh files empty) k = refl
  Uses-latest _ _ (added secret latest s used known) k =
      let key = get_resource_key secret.meta in
      let path : String = elim (lookup key s.secrets) [ none ↦ "" | some stored ↦ stored.path ] in
      let new = (refresh crypto manager secret path (validate_secret crypto secret) s.files).0 in
      let same = refresh-secret secret path (validate_secret crypto secret) s.files in
      insert-secret key new s.secrets k ∙ ground (arith, same, Uses-latest latest s used k)
  Uses-latest _ _ (deleted key latest s used known) k =
      delete_secret-secret key s k ∙ ground (arith, Uses-latest latest s used k)
  Uses-latest _ _ (referred key latest s used known) k =
      get_secret_reference-secret key s k ∙ Uses-latest latest s used k

  -- What a reference gives of a secret with the verdict of its validation: a valid one has its file.
  pub Judged : String → Secret → Option String → SecretReference × LocalSecretStore F → Type 0
  Judged key secret none r =
      r.0.error ≡ none
      × r.0.path ≡ view.path_of key
      × view.read r.1.files key ≡ some (view.content secret)
  Judged key secret (some e) r = r.0.error ≡ some e × r.0.path ≡ "" × view.read r.1.files key ≡ none

  -- What a reference gives at a key, where the secret is the one last added or there is none.
  pub Answer : String → Option Secret → SecretReference × LocalSecretStore F → Type 0
  Answer key none r = r.0 ≡ missing_reference crypto manager × view.read r.1.files key ≡ none
  Answer key (some secret) r =
      r.0.secret_type ≡ secret.secret_type × Judged key secret (validate_secret crypto secret) r

  reference_to-Judged :
      (key : String) (st : StoredSecret) (s : LocalSecretStore F)
      → IsSynced crypto manager Keys view law s
      → IsStored crypto manager Keys view law key st
      → lookup key s.secrets ≡ some st
      → Judged key st.secret
          (validate_secret crypto st.secret)
          (reference_to crypto manager key st s)
  unfolding reference_to Judged
  reference_to-Judged key st s ok known e = rw⁻¹ known.error (at_error st.validation_err refl)
    where
      at_error :
          (err : Option String)
          → st.validation_err ≡ err
          → Judged key st.secret err (reference_to crypto manager key st s)
      at_error none v = elim (Bool-cases (st.path == "")) [
        | inl p ↦ (
          ground arith,
          ground (
            arith,
            law.path st.secret s.files (subst Keys (sym known.key) known.known),
            ap view.path_of known.key,
          ),
          ground (
            arith,
            law.read_written st.secret s.files key (subst Keys (sym known.key) known.known)
                known.known,
            eq_iff (get_resource_key st.secret.meta) key,
            known.key,
          ),
        )
        | inr p ↦ (
          ground arith,
          ground (arith, known.path p),
          ground (arith, ok.files key known.known, ap (expected crypto manager Keys view law) e),
        )
      ]
      at_error (some x) v = (
        ground arith,
        rw v (elim (Bool-cases (st.path == "")) [
          | inl p ↦ (eq_iff st.path "").0 p
          | inr p ↦ ground (arith, known.valid p)
        ]),
        ground (arith, ok.files key known.known),
      )

  reference_to-type :
      (key : String) (st : StoredSecret) (s : LocalSecretStore F)
      → (reference_to crypto manager key st s).0.secret_type ≡ st.secret.secret_type
  unfolding reference_to
  reference_to-type key st s = ground arith

  -- After any uses of a store, a reference to a key is to the secret last added there: it carries the
  -- secret's type and the error of its validation, and if there is none the path of the key, where the
  -- file then has the content of the secret. Without a valid secret the key has no file.
  pub get_secret_reference-Answer :
      (latest : Latest) (s : LocalSecretStore F) (key : String)
      → Uses latest s
      → Keys key
      → Answer key (latest key) (get_secret_reference crypto manager key s)
  unfolding get_secret_reference Answer
  get_secret_reference-Answer latest s key used known =
      rw⁻¹ (Uses-latest latest s used key) (at_entry (lookup key s.secrets) refl)
    where
      ok : IsSynced crypto manager Keys view law s
      ok = Uses-IsSynced latest s used

      at_entry :
          (o : Option StoredSecret)
          → lookup key s.secrets ≡ o
          → Answer key (secret_of o) (elim o as (λ _. SecretReference × LocalSecretStore F) [
            | none ↦ (missing_reference crypto manager, s)
            | some st ↦ reference_to crypto manager key st s
          ])
      at_entry none e = (refl, ground (arith, ok.files key known))
      at_entry (some st) e =
          (reference_to-type key st s, reference_to-Judged key st s ok (ok.stored key st e) e)

  -- After any uses of a store, a file that a key has is that of the secret last added there, and that
  -- secret is valid.
  pub Uses-files :
      (latest : Latest) (s : LocalSecretStore F) (key : String) (c : C)
      → Uses latest s
      → Keys key
      → view.read s.files key ≡ some c
      → (secret : Secret) × latest key ≡ some secret
        × validate_secret crypto secret ≡ none
        × c ≡ view.content secret
  Uses-files latest s key c used known e = elim (Option-cases (lookup key s.secrets)) [
    | inl n ↦ ground (arith, ok.files key known, ap (expected crypto manager Keys view law) n)
    | inr (st, l) ↦
        let at = ok.stored key st l in
        let file = ok.files key known ∙ ap (expected crypto manager Keys view law) l in
        (
          st.secret,
          sym (Uses-latest latest s used key) ∙ ap secret_of l,
          elim (Bool-cases (st.path == "")) [
            | inl p ↦ ground arith
            | inr p ↦ sym at.error ∙ at.valid p
          ],
          ground arith,
        )
  ]
    where
      ok : IsSynced crypto manager Keys view law s
      ok = Uses-IsSynced latest s used

-- ===== src/Secrets/Store/Synced.antt =====
-- The store against its files: a secret has a file if and only if it has a path, and then it is valid
-- and the file has its content.
use kubernetes_ingress.Prelude.{
  String, ◌≡◌, ◌≢◌, refl, sym, ap, ◌∙◌, inl, inr, true, false, Option, none, some, StrMap, lookup,
  insert, lookup-insert, lookup-delete, delete, arith, ◌==◌, eq_iff, Bool-cases, Option-cases,
  subst, if◌then◌else◌,
}
use kubernetes_ingress.Api.{get_resource_key}
use kubernetes_ingress.Secrets.{Secret, Crypto, validate_secret}
use kubernetes_ingress.Secrets.Store.{
  StoredSecret, SecretReference, SecretFileManager, LocalSecretStore, rewrite, refresh,
  add_or_update_secret, delete_secret, get_secret_reference, missing_reference, reference_to,
}

-- How the files of a manager are looked at: the file of a key, what a secret's file holds, and its path.
pub record FileView (F C : Type 0) : Type 0 where
  pub read : F → String → Option C
  pub content : Secret → C
  pub path_of : String → String

-- What the store relies on: on the keys `Keys`, each has a file of its own.
pub record IsFileManager {F C : Type 0} (Keys : String → Type 0) (view : FileView F C)
    (manager : SecretFileManager F) : Type 0 where
  pub path :
      (secret : Secret) (files : F)
      → Keys (get_resource_key secret.meta)
      → (manager.add_or_update_secret secret files).0 ≡ view.path_of (get_resource_key secret.meta)
  pub path_ne : (k : String) → view.path_of k ≢ ""
  pub read_written :
      (secret : Secret) (files : F) (k : String)
      → Keys (get_resource_key secret.meta)
      → Keys k
      → view.read (manager.add_or_update_secret secret files).1 k ≡ (
          if get_resource_key secret.meta == k
          then some (view.content secret)
          else view.read files k)
  pub read_deleted :
      (key : String) (files : F) (k : String)
      → Keys key
      → Keys k
      → view.read (manager.delete_secret key files) k
        ≡ (if key == k then none else view.read files k)

eq-false : (s t : String) → s ≢ t → (s == t) ≡ false
eq-false s t n = elim (Bool-cases (s == t)) [ inl e ↦ absurd (n ((eq_iff s t).0 e)) | inr e ↦ e ]

module _ {F C : Type 0} (crypto : Crypto) (manager : SecretFileManager F) (Keys : String → Type 0)
    (view : FileView F C) (law : IsFileManager Keys view manager) where
  abbrev pub expected : Option StoredSecret → Option C
  expected none = none
  expected (some stored) = if stored.path == "" then none else some (view.content stored.secret)

  -- What the store knows of a secret at a key.
  pub record IsStored (k : String) (stored : StoredSecret) : Type 0 where
    pub key : get_resource_key stored.secret.meta ≡ k
    pub known : Keys k
    pub error : stored.validation_err ≡ validate_secret crypto stored.secret
    pub path : (stored.path == "") ≡ false → stored.path ≡ view.path_of k
    pub valid : (stored.path == "") ≡ false → stored.validation_err ≡ none

  pub record IsSynced (s : LocalSecretStore F) : Type 0 where
    pub files : (k : String) → Keys k → view.read s.files k ≡ expected (lookup k s.secrets)
    pub stored :
        (k : String) (stored : StoredSecret) → lookup k s.secrets ≡ some stored → IsStored k stored

  insert-IsStored :
      (key : String) (new : StoredSecret) (secrets : StrMap StoredSecret)
      → IsStored key new
      → ((k : String) (st : StoredSecret) → lookup k secrets ≡ some st → IsStored k st)
      → (k : String) (st : StoredSecret) → lookup k (insert key new secrets) ≡ some st
      → IsStored k st
  insert-IsStored key new secrets ok all k st l = elim (Bool-cases (key == k)) [
    | inl e ↦
        let same : new ≡ st = ground (arith, lookup-insert key k new secrets) in
        subst (λ x. IsStored x st) ((eq_iff key k).0 e) (subst (IsStored key) same ok)
    | inr e ↦ all k st (ground (arith, lookup-insert key k new secrets))
  ]

  delete-IsStored :
      (key : String) (secrets : StrMap StoredSecret)
      → ((k : String) (st : StoredSecret) → lookup k secrets ≡ some st → IsStored k st)
      → (k : String) (st : StoredSecret) → lookup k (delete key secrets) ≡ some st
      → IsStored k st
  delete-IsStored key secrets all k st l = all k st (ground (arith, lookup-delete key k secrets))

  -- The secret is written to its file, and its entry has the path.
  written-IsSynced :
      (s : LocalSecretStore F) (secret : Secret)
      → IsSynced s
      → Keys (get_resource_key secret.meta)
      → validate_secret crypto secret ≡ none
      → IsSynced (record {
        secrets =
            insert
              (get_resource_key secret.meta)
              (record {
                secret = secret;
                path = (manager.add_or_update_secret secret s.files).0;
                validation_err = none;
              })
              s.secrets;
        files = (manager.add_or_update_secret secret s.files).1;
      })
  written-IsSynced s secret ok at valid =
      let key = get_resource_key secret.meta in
      let path = (manager.add_or_update_secret secret s.files).0 in
      let new : StoredSecret = record { secret = secret; path = path; validation_err = none } in
      let e : path ≡ view.path_of key = law.path secret s.files at in
      let filled : (path == "") ≡ false = eq-false path "" (λ z. law.path_ne key (sym e ∙ z)) in
      record {
        files = λ k known. ground (
          arith,
          law.read_written secret s.files k at known,
          lookup-insert key k new s.secrets,
          ok.files k known,
        );
        stored =
            insert-IsStored key new s.secrets
              (record {
                key = refl;
                known = at;
                error = sym valid;
                path = λ _. e;
                valid = λ _. refl;
              })
              ok.stored;
      }

  -- The secret has no file, and its entry no path.
  bare-IsSynced :
      (s : LocalSecretStore F) (secret : Secret) (files : F)
      → IsSynced s
      → Keys (get_resource_key secret.meta)
      → ((k : String)
          → Keys k
          → view.read files k
            ≡ (if get_resource_key secret.meta == k then none else view.read s.files k))
      → IsSynced (record {
        secrets =
            insert
              (get_resource_key secret.meta)
              (record {
                secret = secret;
                path = "";
                validation_err = validate_secret crypto secret;
              })
              s.secrets;
        files = files;
      })
  bare-IsSynced s secret files ok at gone =
      let key = get_resource_key secret.meta in
      let new : StoredSecret = record {
        secret = secret;
        path = "";
        validation_err = validate_secret crypto secret;
      } in
      record {
        files = λ k known.
            ground (arith, gone k known, lookup-insert key k new s.secrets, ok.files k known);
        stored =
            insert-IsStored key new s.secrets
              (record { key = refl; known = at; error = refl; path = λ z. cc; valid = λ z. cc })
              ok.stored;
      }

  -- At a key whose entry has no path there is no file.
  no_file :
      (s : LocalSecretStore F) (key : String)
      → IsSynced s
      → Keys key
      → (o : Option StoredSecret) → lookup key s.secrets ≡ o
      → ((elim o [ none ↦ "" | some st ↦ st.path ]) == "") ≡ true
      → view.read s.files key ≡ none
  no_file s key ok at none e h = ok.files key at ∙ ap expected e
  no_file s key ok at (some st) e h = ok.files key at ∙ (ap expected e ∙ ground arith)

  pub add_or_update_secret-IsSynced :
      (secret : Secret) (s : LocalSecretStore F)
      → IsSynced s
      → Keys (get_resource_key secret.meta)
      → IsSynced (add_or_update_secret crypto manager secret s)
  unfolding add_or_update_secret refresh rewrite
  add_or_update_secret-IsSynced secret s ok at =
      at_path
        (elim (lookup (get_resource_key secret.meta) s.secrets) [ none ↦ "" | some st ↦ st.path ])
        (validate_secret crypto secret) refl
        (no_file s (get_resource_key secret.meta) ok at
          (lookup (get_resource_key secret.meta) s.secrets) refl)
    where
      Result : StoredSecret × F → Type 0
      Result r =
          IsSynced
            (record { secrets = insert (get_resource_key secret.meta) r.0 s.secrets; files = r.1 })

      at_error :
          (err : Option String)
          → validate_secret crypto secret ≡ err
          → Result (rewrite crypto manager secret err s.files)
      at_error none e = written-IsSynced s secret ok at e
      at_error (some x) e =
          subst
            (λ err. Result (
              record { secret = secret; path = ""; validation_err = err },
              manager.delete_secret (get_resource_key secret.meta) s.files,
            ))
            e
            (bare-IsSynced s secret (manager.delete_secret (get_resource_key secret.meta) s.files)
              ok at (λ k known. law.read_deleted (get_resource_key secret.meta) s.files k at known))

      at_path :
          (path : String) (err : Option String)
          → validate_secret crypto secret ≡ err
          → ((path == "") ≡ true → view.read s.files (get_resource_key secret.meta) ≡ none)
          → Result (refresh crypto manager secret path err s.files)
      at_path path err e empty = elim (Bool-cases (path == "")) [
        | inl p ↦ rw p (
            subst (λ x. Result (record { secret = secret; path = ""; validation_err = x }, s.files))
              e (bare-IsSynced s secret s.files ok at (λ k known. unread k (empty p))))
        | inr p ↦ rw p (at_error err e)
      ]
        where
          unread :
              (k : String)
              → view.read s.files (get_resource_key secret.meta) ≡ none
              → view.read s.files k
                ≡ (if get_resource_key secret.meta == k then none else view.read s.files k)
          unread k n = elim (Bool-cases (get_resource_key secret.meta == k)) [
            | inl z ↦
                rw z
                  (ap (view.read s.files) (sym ((eq_iff (get_resource_key secret.meta) k).0 z)) ∙ n)
            | inr z ↦ rw z refl
          ]

  -- The entry of a key leaves with its file, if it has one.
  pub delete_secret-IsSynced :
      (key : String) (s : LocalSecretStore F)
      → IsSynced s
      → Keys key
      → IsSynced (delete_secret crypto manager key s)
  unfolding delete_secret
  delete_secret-IsSynced key s ok at = at_entry (lookup key s.secrets) refl
    where
      at_entry :
          (o : Option StoredSecret)
          → lookup key s.secrets ≡ o
          → IsSynced (elim o [
            | none ↦ s
            | some stored ↦ record {
              secrets = delete key s.secrets;
              files = if stored.path == "" then s.files else manager.delete_secret key s.files;
            }
          ])
      at_entry none e = ok
      at_entry (some stored) e = record {
        files = λ k known. ground (
          arith,
          law.read_deleted key s.files k at known,
          lookup-delete key k s.secrets,
          ok.files k known,
          ok.files key at,
          ap expected e,
          eq_iff key k,
        );
        stored = delete-IsStored key s.secrets ok.stored;
      }

  -- The valid secret of an entry without a path is written.
  reference_to-IsSynced :
      (key : String) (st : StoredSecret) (s : LocalSecretStore F)
      → IsSynced s
      → IsStored key st
      → IsSynced (reference_to crypto manager key st s).1
  unfolding reference_to
  reference_to-IsSynced key st s ok known = elim (Option-cases st.validation_err) [
    | inl v ↦
        rw v (elim (Bool-cases (st.path == "")) [ inl p ↦ rw p (at_written v) | inr p ↦ rw p ok ])
    | inr (x, v) ↦ rw v ok
  ]
    where
      at_written :
          st.validation_err ≡ none
          → IsSynced (record {
            secrets =
                insert key
                  (record {
                    secret = st.secret;
                    path = (manager.add_or_update_secret st.secret s.files).0;
                    validation_err = none;
                  })
                  s.secrets;
            files = (manager.add_or_update_secret st.secret s.files).1;
          })
      at_written v = rw⁻¹ known.key (
          written-IsSynced s st.secret ok (subst Keys (sym known.key) known.known)
            (sym known.error ∙ v))

  -- A reference writes the file of a valid secret that has none.
  pub get_secret_reference-IsSynced :
      (key : String) (s : LocalSecretStore F)
      → IsSynced s
      → IsSynced (get_secret_reference crypto manager key s).1
  unfolding get_secret_reference
  get_secret_reference-IsSynced key s ok = at_entry (lookup key s.secrets) refl
    where
      at_entry :
          (o : Option StoredSecret)
          → lookup key s.secrets ≡ o
          → IsSynced
              (elim o as (λ _. SecretReference × LocalSecretStore F) [
                | none ↦ (missing_reference crypto manager, s)
                | some st ↦ reference_to crypto manager key st s
              ]).1
      at_entry none e = ok
      at_entry (some st) e = reference_to-IsSynced key st s ok (ok.stored key st e)

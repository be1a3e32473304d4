-- ===== src/Secrets/Store.antt =====
-- internal/k8s/secrets/store.go: `LocalSecretStore` over a `SecretFileManager`. The manager works on
-- files `F`, which each operation takes and returns.
pub mod Synced
pub mod History
use kubernetes_ingress.Prelude.{
  String, ◌==◌, Bool, false, Option, none, some, StrMap, [], lookup, insert, delete, if◌then◌else◌,
}
use kubernetes_ingress.Api.{get_resource_key}
use kubernetes_ingress.Secrets.{Secret, Crypto, validate_secret}

-- `StoredSecret`
pub record StoredSecret : Type 0 where
  pub secret : Secret
  pub path : String
  pub validation_err : Option String

-- `SecretReference`; the type of a reference to a missing secret is "".
pub record SecretReference : Type 0 where
  pub secret_type : String
  pub path : String
  pub error : Option String

-- `SecretFileManager`
pub record SecretFileManager (F : Type 0) : Type 0 where
  pub add_or_update_secret : Secret → F → String × F
  pub delete_secret : String → F → F

-- The map `secrets` of `LocalSecretStore`, and the files.
pub record LocalSecretStore (F : Type 0) : Type 0 where
  pub secrets : StrMap StoredSecret
  pub files : F

module _ {F : Type 0} (crypto : Crypto) (manager : SecretFileManager F) where
  -- `NewLocalSecretStore`
  unfoldable pub new_local_secret_store : F → LocalSecretStore F
  new_local_secret_store files = record { secrets = []; files = files }

  -- The secret that has a file: an invalid one loses it, a valid one has it written again.
  unfoldable pub rewrite : Secret → Option String → F → StoredSecret × F
  rewrite secret (some e) files = (
    record { secret = secret; path = ""; validation_err = some e },
    manager.delete_secret (get_resource_key secret.meta) files,
  )
  rewrite secret none files =
      let written = manager.add_or_update_secret secret files in
      (record { secret = secret; path = written.0; validation_err = none }, written.1)

  -- The secret with its file brought up to date: it had one at `path` if `path` is not "".
  unfoldable pub refresh : Secret → String → Option String → F → StoredSecret × F
  unfolding rewrite
  refresh secret path err files =
      if path == ""
      then (record { secret = secret; path = ""; validation_err = err }, files)
      else rewrite secret err files

  -- `AddOrUpdateSecret`
  unfoldable pub add_or_update_secret : Secret → LocalSecretStore F → LocalSecretStore F
  unfolding refresh lookup
  add_or_update_secret secret s =
      let key = get_resource_key secret.meta in
      let path : String = elim (lookup key s.secrets) [ none ↦ "" | some stored ↦ stored.path ] in
      let refreshed = refresh secret path (validate_secret crypto secret) s.files in
      record { secrets = insert key refreshed.0 s.secrets; files = refreshed.1 }

  -- `DeleteSecret`
  unfoldable pub delete_secret : String → LocalSecretStore F → LocalSecretStore F
  unfolding lookup delete
  delete_secret key s = elim (lookup key s.secrets) [
    | none ↦ s
    | some stored ↦ record {
      secrets = delete key s.secrets;
      files = if stored.path == "" then s.files else manager.delete_secret key s.files;
    }
  ]

  -- The reference to a missing secret.
  unfoldable pub missing_reference : SecretReference
  missing_reference = record {
    secret_type = "";
    path = "";
    error = some "secret doesn't exist or of an unsupported type";
  }

  -- The reference to a secret of the store, whose file is written if it is valid and has none.
  unfoldable pub reference_to :
      String → StoredSecret → LocalSecretStore F → SecretReference × LocalSecretStore F
  reference_to key stored s =
      let wanted : Bool = elim stored.validation_err [
        | none ↦ stored.path == ""
        | some _ ↦ false
      ] in
      let written = manager.add_or_update_secret stored.secret s.files in
      let stored' : StoredSecret = if wanted then record stored { path = written.0 } else stored in
      (
        record {
          secret_type = stored'.secret.secret_type;
          path = stored'.path;
          error = stored'.validation_err;
        },
        record {
          secrets = if wanted then insert key stored' s.secrets else s.secrets;
          files = if wanted then written.1 else s.files;
        },
      )

  -- `GetSecretReference`
  unfoldable pub get_secret_reference :
      String → LocalSecretStore F → SecretReference × LocalSecretStore F
  unfolding lookup missing_reference reference_to
  get_secret_reference key s = elim (lookup key s.secrets) [
    | none ↦ (missing_reference, s)
    | some stored ↦ reference_to key stored s
  ]

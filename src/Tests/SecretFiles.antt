-- ===== src/Tests/SecretFiles.antt =====
-- Secrets of the controller and their files.
use kubernetes_ingress.Prelude.{
  String, ◌≡◌, ◌≢◌, ◌↔◌, ◌⊎◌, refl, sym, inl, inr, none, some, [], ◌∷◌, ◌==◌, lookup, arith, eq_iff,
  if◌then◌else◌,
}
use kubernetes_ingress.Api.{ObjectMeta, get_resource_key}
use kubernetes_ingress.Secrets.{Secret, Crypto, validate_secret, validate_tls_secret, field}
use kubernetes_ingress.Secrets.Store.{
  SecretFileManager, LocalSecretStore, new_local_secret_store, add_or_update_secret, refresh,
  reference_to, get_secret_reference,
}
use kubernetes_ingress.Secrets.Store.Synced.{IsFileManager}
use kubernetes_ingress.Secrets.Store.History.{
  Latest, Uses, fresh, added, referred, Answer, get_secret_reference-Answer, Uses-files,
}
use kubernetes_ingress.Secrets.Valid.{IsValidSecret, validate_secret-IsValidSecret}
use kubernetes_ingress.Secrets.Files.{
  Files, create_secret, get_filename_for_secret, object_meta_to_file_name,
  generate_cert_and_key_file_content, configurator_secrets, key_to_file_name, file_of,
  tls_secret_file_mode,
}
use kubernetes_ingress.Secrets.Files.Manager.{
  secret_files, configurator_secrets-IsFileManager, slashes,
}

-- A crypto library that takes every pair and no certificate.
abbrev lenient : Crypto
lenient = record {
  x509_key_pair = λ cert key. none;
  pem_decode = λ bytes. none;
  parse_certificate = λ bytes. none;
}

abbrev Known : String → Type 0
Known k = (k ≡ "default/tls") ⊎ (k ≡ "default/jwk")

Known-slashes : (k : String) → Known k → slashes k ≡ 1
unfolding slashes
Known-slashes k (inl e) = rw e refl
Known-slashes k (inr e) = rw e refl

file_names : key_to_file_name "default/tls" ≢ key_to_file_name "default/jwk"
unfolding key_to_file_name
file_names e = absurd (ground (arith, (eq_iff "default-tls" "default-jwk").1 e))

Known-injective :
    (k k' : String) → Known k → Known k' → key_to_file_name k ≡ key_to_file_name k' → k ≡ k'
Known-injective k k' (inl e) (inl f) h = cc
Known-injective k k' (inl e) (inr f) h = absurd (file_names (rw (e, f) at h))
Known-injective k k' (inr e) (inl f) h = absurd (file_names (sym (rw (e, f) at h)))
Known-injective k k' (inr e) (inr f) h = cc

configurator_secrets-IsFileManager_example :
    IsFileManager Known
      (secret_files "/etc/nginx/secrets")
      (configurator_secrets "/etc/nginx/secrets")
configurator_secrets-IsFileManager_example =
    configurator_secrets-IsFileManager Known "/etc/nginx/secrets" Known-slashes Known-injective

managed :
    IsFileManager Known
      (secret_files "/etc/nginx/secrets")
      (configurator_secrets "/etc/nginx/secrets")
managed =
    configurator_secrets-IsFileManager Known "/etc/nginx/secrets" Known-slashes Known-injective

abbrev tls_meta : ObjectMeta
tls_meta = record {
  namespace = "default";
  name = "tls";
  uid = "s1";
  creation_timestamp = 5;
  generation = 1;
  annotations = none;
}

abbrev tls_secret : Secret
tls_secret = record {
  meta = tls_meta;
  secret_type = "kubernetes.io/tls";
  contents = ("tls.crt", "certificate") ∷ ("tls.key", "key") ∷ [];
}

abbrev manager : SecretFileManager Files
manager = configurator_secrets "/etc/nginx/secrets"

abbrev tls_stored : LocalSecretStore Files
tls_stored =
    add_or_update_secret lenient manager tls_secret (new_local_secret_store lenient manager [])

abbrev tls_latest : Latest
tls_latest k = if get_resource_key tls_secret.meta == k then some tls_secret else none

tls_key : get_resource_key tls_secret.meta ≡ "default/tls"
unfolding get_resource_key
tls_key = refl

tls_used :
    Uses lenient manager Known (secret_files "/etc/nginx/secrets") managed tls_latest tls_stored
unfolding lookup
tls_used =
    added tls_secret (λ k. none) (new_local_secret_store lenient manager [])
      (fresh [] (λ k known. refl)) (inl tls_key)

get_secret_reference-Answer_example :
    Answer lenient manager Known
      (secret_files "/etc/nginx/secrets")
      managed
      "default/tls"
      (tls_latest "default/tls")
      (get_secret_reference lenient manager "default/tls" tls_stored)
get_secret_reference-Answer_example =
    get_secret_reference-Answer lenient manager Known (secret_files "/etc/nginx/secrets") managed
      tls_latest tls_stored "default/tls" tls_used (inl refl)

tls_referred :
    Uses lenient manager Known
      (secret_files "/etc/nginx/secrets")
      managed
      tls_latest
      (get_secret_reference lenient manager "default/tls" tls_stored).1
tls_referred = referred "default/tls" tls_latest tls_stored tls_used (inl refl)

tls_file :
    (secret_files "/etc/nginx/secrets").read
      (get_secret_reference lenient manager "default/tls" tls_stored).1.files
      "default/tls"
    ≡ some (tls_secret_file_mode, "certificate\nkey")
unfolding lookup field get_resource_key validate_secret validate_tls_secret new_local_secret_store
    refresh add_or_update_secret reference_to get_secret_reference file_of
    generate_cert_and_key_file_content get_filename_for_secret create_secret key_to_file_name
    object_meta_to_file_name configurator_secrets
tls_file = refl

Uses-files_example :
    (secret : Secret) × tls_latest "default/tls" ≡ some secret
    × validate_secret lenient secret ≡ none
    × (tls_secret_file_mode, "certificate\nkey") ≡ file_of secret
Uses-files_example =
    Uses-files lenient manager Known (secret_files "/etc/nginx/secrets") managed tls_latest
      (get_secret_reference lenient manager "default/tls" tls_stored).1 "default/tls"
      (tls_secret_file_mode, "certificate\nkey") tls_referred (inl refl) tls_file

validate_secret-IsValidSecret_example :
    (validate_secret lenient tls_secret ≡ none) ↔ IsValidSecret lenient tls_secret
validate_secret-IsValidSecret_example = validate_secret-IsValidSecret lenient tls_secret

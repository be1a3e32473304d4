-- ===== src/Secrets/Files.antt =====
-- The `SecretFileManager` of the controller: `Configurator.AddOrUpdateSecret` and `DeleteSecret` of
-- internal/configs/configurator.go over the secret files of internal/nginx/manager.go. The directory
-- of secrets is a map from the file's path to its mode and content.
pub mod Manager
use kubernetes_ingress.Prelude.{ℕ, String, ◌++◌, ◌==◌, eqb, StrMap, insert, delete, if◌then◌else◌}
use Prim.Native.Char.{code}
use kubernetes_ingress.Api.{ObjectMeta}
use kubernetes_ingress.Secrets.{
  Secret, field, tls_cert_key, tls_private_key_key, ca_key, jwt_key_key, secret_type_ca,
  secret_type_jwk,
}
use kubernetes_ingress.Secrets.Store.{SecretFileManager}

-- `os.FileMode` 0600 and 0644
pub data FileMode : Type 0 where
  tls_secret_file_mode jwk_secret_file_mode : FileMode

abbrev pub Files : Type 0
Files = StrMap (FileMode × String)

-- `GetFilenameForSecret`; `path.Join` of a directory that is clean and a name without "/".
unfoldable pub get_filename_for_secret : String → String → String
get_filename_for_secret secrets_path name = secrets_path ++ "/" ++ name

-- `CreateSecret` and `DeleteSecret` of the manager; a file that cannot be removed is left missing.
unfoldable pub create_secret : String → String → String → FileMode → Files → String × Files
unfolding get_filename_for_secret
create_secret secrets_path name content mode files =
    let filename = get_filename_for_secret secrets_path name in
    (filename, insert filename (mode, content) files)

unfoldable pub delete_secret_file : String → String → Files → Files
unfolding get_filename_for_secret delete
delete_secret_file secrets_path name files =
    delete (get_filename_for_secret secrets_path name) files

-- `strings.Replace(key, "/", "-", -1)`
unfoldable pub key_to_file_name : String → String
key_to_file_name String.[] = ""
key_to_file_name (String.◌∷◌ c s) =
    let rest = key_to_file_name s in String.◌∷◌ (if eqb (code c) b'/' then "-" else c) rest

-- `objectMetaToFileName`
unfoldable pub object_meta_to_file_name : ObjectMeta → String
object_meta_to_file_name meta = meta.namespace ++ "-" ++ meta.name

-- `GenerateCertAndKeyFileContent` and `GenerateCAFileContent`
unfoldable pub generate_cert_and_key_file_content : Secret → String
unfolding field
generate_cert_and_key_file_content secret =
    field secret tls_cert_key ++ "\n" ++ field secret tls_private_key_key

unfoldable pub generate_ca_file_content : Secret → String
unfolding field
generate_ca_file_content secret = field secret ca_key

-- The content and mode of the file of a secret, by its type.
unfoldable pub file_of : Secret → FileMode × String
unfolding generate_cert_and_key_file_content generate_ca_file_content field
file_of secret =
    if secret.secret_type == secret_type_ca
    then (tls_secret_file_mode, generate_ca_file_content secret)
    else if secret.secret_type == secret_type_jwk
    then (jwk_secret_file_mode, field secret jwt_key_key)
    else (tls_secret_file_mode, generate_cert_and_key_file_content secret)

-- The Configurator as a manager.
unfoldable pub configurator_secrets : String → SecretFileManager Files
unfolding create_secret delete_secret_file object_meta_to_file_name key_to_file_name file_of
configurator_secrets secrets_path = record {
  add_or_update_secret = λ secret files.
      create_secret secrets_path (object_meta_to_file_name secret.meta) (file_of secret).1
        (file_of secret).0 files;
  delete_secret = λ key files. delete_secret_file secrets_path (key_to_file_name key) files;
}

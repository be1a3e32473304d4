-- ===== src/Secrets.antt =====
-- internal/k8s/secrets: the validation of secrets and the store that the controller keeps them in. The
-- cryptographic parsers of Go are a parameter; an error is its text, `none` is nil.
pub mod Store
pub mod Files
pub mod Valid
use kubernetes_ingress.Prelude.{
  String, ◌++◌, ◌==◌, Bool, ◌||◌, Option, none, some, StrMap, lookup, if◌then◌else◌,
}
use kubernetes_ingress.Api.{ObjectMeta}

-- `api_v1.Secret`; the bytes of its data are texts.
pub record Secret : Type 0 where
  pub meta : ObjectMeta
  pub secret_type : String
  pub contents : StrMap String

-- `pem.Block`
pub record Block : Type 0 where
  pub block_type : String
  pub bytes : String

-- `tls.X509KeyPair`, `pem.Decode` and `x509.ParseCertificate`: the errors of the first and the last,
-- and the block of the second.
pub record Crypto : Type 0 where
  pub x509_key_pair : String → String → Option String
  pub pem_decode : String → Option Block
  pub parse_certificate : String → Option String

-- `api_v1.SecretTypeTLS`, `TLSCertKey` and `TLSPrivateKeyKey`
abbrev pub secret_type_tls : String
secret_type_tls = "kubernetes.io/tls"

abbrev pub tls_cert_key : String
tls_cert_key = "tls.crt"

abbrev pub tls_private_key_key : String
tls_private_key_key = "tls.key"

abbrev pub jwt_key_key : String
jwt_key_key = "jwk"

abbrev pub ca_key : String
ca_key = "ca.crt"

abbrev pub secret_type_ca : String
secret_type_ca = "nginx.org/ca"

abbrev pub secret_type_jwk : String
secret_type_jwk = "nginx.org/jwk"

-- `secret.Data[key]`: a missing field reads as no bytes.
unfoldable pub field : Secret → String → String
unfolding lookup
field secret key = elim (lookup key secret.contents) [ none ↦ "" | some v ↦ v ]

module _ (crypto : Crypto) where
  -- `ValidateTLSSecret`
  unfoldable pub validate_tls_secret : Secret → Option String
  unfolding field
  validate_tls_secret secret =
      if secret.secret_type == secret_type_tls
      then elim (crypto.x509_key_pair (field secret tls_cert_key)
          (field secret tls_private_key_key)) [
            | none ↦ none
            | some err ↦ some ("Failed to validate TLS cert and key: " ++ err)
          ]
      else some ("TLS Secret must be of the type " ++ secret_type_tls)

  -- `ValidateCASecret`
  unfoldable pub validate_ca_secret : Secret → Option String
  unfolding lookup
  validate_ca_secret secret =
      if secret.secret_type == secret_type_ca
      then elim (lookup ca_key secret.contents) [
        | none ↦ some ("CA secret must have the data field " ++ ca_key)
        | some ca ↦ elim (crypto.pem_decode ca) [
          | none ↦ some ("The data field " ++ ca_key ++ " must hold a valid CERTIFICATE PEM block")
          | some block ↦
              if block.block_type == "CERTIFICATE"
              then elim (crypto.parse_certificate block.bytes) [
                | none ↦ none
                | some err ↦ some ("Failed to validate certificate: " ++ err)
              ]
              else some (
                  "The data field " ++ ca_key
                  ++ " must hold a valid CERTIFICATE PEM block, but got '" ++ block.block_type
                  ++ "'")
        ]
      ]
      else some ("CA secret must be of the type " ++ secret_type_ca)

-- `ValidateJWKSecret`
unfoldable pub validate_jwk_secret : Secret → Option String
unfolding lookup
validate_jwk_secret secret =
    if secret.secret_type == secret_type_jwk
    then elim (lookup jwt_key_key secret.contents) [
      | none ↦ some ("JWK secret must have the data field " ++ jwt_key_key)
      | some _ ↦ none
    ]
    else some ("JWK secret must be of the type " ++ secret_type_jwk)

-- `IsSupportedSecretType`
unfoldable pub is_supported_secret_type : String → Bool
is_supported_secret_type secret_type =
    secret_type == secret_type_tls
    || (secret_type == secret_type_ca || secret_type == secret_type_jwk)

-- `ValidateSecret`
unfoldable pub validate_secret : Crypto → Secret → Option String
unfolding validate_tls_secret validate_jwk_secret validate_ca_secret
validate_secret crypto secret =
    if secret.secret_type == secret_type_tls
    then validate_tls_secret crypto secret
    else if secret.secret_type == secret_type_jwk
    then validate_jwk_secret secret
    else if secret.secret_type == secret_type_ca
    then validate_ca_secret crypto secret
    else some ("Secret is of the unsupported type " ++ secret.secret_type)

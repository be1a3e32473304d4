-- ===== src/Secrets/Valid.antt =====
-- Which secrets are valid.
use kubernetes_ingress.Prelude.{
  String, ◌≡◌, ◌↔◌, refl, inl, inr, none, some, lookup, arith, ◌==◌, eq_iff, Bool-cases,
  Option-cases,
}
use kubernetes_ingress.Secrets.{
  Secret, Block, Crypto, field, validate_secret, validate_tls_secret, validate_ca_secret,
  validate_jwk_secret, secret_type_tls, secret_type_ca, secret_type_jwk, tls_cert_key,
  tls_private_key_key, jwt_key_key, ca_key,
}

-- The data that a secret must have, by its type.
pub data IsValidSecret (crypto : Crypto) (secret : Secret) : Type 0 where
  tls :
      secret.secret_type ≡ secret_type_tls
      → crypto.x509_key_pair (field secret tls_cert_key) (field secret tls_private_key_key) ≡ none
      → IsValidSecret crypto secret
  ca :
      (pem : String) (block : Block)
      → secret.secret_type ≡ secret_type_ca
      → lookup ca_key secret.contents ≡ some pem
      → crypto.pem_decode pem ≡ some block
      → block.block_type ≡ "CERTIFICATE"
      → crypto.parse_certificate block.bytes ≡ none
      → IsValidSecret crypto secret
  jwk :
      (key : String)
      → secret.secret_type ≡ secret_type_jwk
      → lookup jwt_key_key secret.contents ≡ some key
      → IsValidSecret crypto secret

validate_ca_secret-IsValidSecret :
    (crypto : Crypto) (secret : Secret)
    → validate_ca_secret crypto secret ≡ none
    → IsValidSecret crypto secret
unfolding validate_ca_secret
validate_ca_secret-IsValidSecret crypto secret v =
    elim (Option-cases (lookup ca_key secret.contents)) [
      | inl n ↦ ground arith
      | inr (pem, e) ↦ elim (Option-cases (crypto.pem_decode pem)) [
        | inl n ↦ ground arith
        | inr (block, d) ↦
            ca pem block (ground (arith, eq_iff secret.secret_type secret_type_ca)) e d
              (ground (arith, eq_iff block.block_type "CERTIFICATE")) (ground arith)
      ]
    ]

-- A secret passes its validation if and only if it has one of the supported types and the data of it.
pub validate_secret-IsValidSecret :
    (crypto : Crypto) (secret : Secret)
    → (validate_secret crypto secret ≡ none) ↔ IsValidSecret crypto secret
unfolding validate_secret validate_tls_secret validate_ca_secret validate_jwk_secret
validate_secret-IsValidSecret crypto secret = (forward, backward)
  where
    backward : IsValidSecret crypto secret → validate_secret crypto secret ≡ none
    backward (tls t k) = rw (t, k) refl
    backward (ca pem block t l d b p) = rw (t, l) (rw d (rw (b, p) refl))
    backward (jwk key t l) = rw (t, l) refl

    forward : validate_secret crypto secret ≡ none → IsValidSecret crypto secret
    forward v = elim (Bool-cases (secret.secret_type == secret_type_tls)) [
      | inl t ↦ tls (ground (arith, eq_iff secret.secret_type secret_type_tls)) (ground arith)
      | inr t ↦ elim (Bool-cases (secret.secret_type == secret_type_jwk)) [
        | inl j ↦ elim (Option-cases (lookup jwt_key_key secret.contents)) [
          | inl n ↦ ground arith
          | inr (key, l) ↦ jwk key (ground (arith, eq_iff secret.secret_type secret_type_jwk)) l
        ]
        | inr j ↦ validate_ca_secret-IsValidSecret crypto secret (ground arith)
      ]
    ]

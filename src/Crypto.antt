-- ===== src/Crypto.antt =====
-- The cryptographic packages of the Go library that impl/go calls (crypto/hkdf and crypto/sha256,
-- crypto/aes with crypto/cipher, crypto/mlkem, crypto/ecdh), as parameters. A randomised call takes
-- the random octets that it draws.
use npamp_protocol.Prelude.{ℕ, ◌+◌, ◌≡◌, List, length, Option, some}

pub record Crypto : Type 0 where
  -- hkdf.Expand(sha256.New, secret, info, length) and hkdf.Extract(sha256.New, secret, salt)
  pub expand : List ℕ → List ℕ → ℕ → Option (List ℕ)
  pub extract : List ℕ → List ℕ → Option (List ℕ)
  pub sha256 : List ℕ → List ℕ
  -- AES-256-GCM: key, nonce, text, additional data
  pub seal : List ℕ → List ℕ → List ℕ → List ℕ → List ℕ
  pub unseal : List ℕ → List ℕ → List ℕ → List ℕ → Option (List ℕ)
  -- ML-KEM-768: a decapsulation key is its seed; the shared secret comes first
  pub mlkem_public : List ℕ → List ℕ
  pub mlkem_encapsulate : List ℕ → List ℕ → Option (List ℕ × List ℕ)
  pub mlkem_decapsulate : List ℕ → List ℕ → Option (List ℕ)
  -- X25519: private key, public key
  pub x25519_public : List ℕ → List ℕ
  pub x25519 : List ℕ → List ℕ → Option (List ℕ)

-- What the documentation of the packages promises of the AEAD: what was sealed opens under the same
-- key, nonce and data, and the tag has 16 octets.
pub record IsAead (c : Crypto) : Type 0 where
  pub unseal-seal :
      (key nonce plaintext aad : List ℕ)
      → c.unseal key nonce (c.seal key nonce plaintext aad) aad ≡ some plaintext
  pub length-seal :
      (key nonce plaintext aad : List ℕ)
      → length (c.seal key nonce plaintext aad) ≡ length plaintext + 16

-- What it promises of the KEM and of the exchange: both ends get the same secret, and the sizes.
pub record IsKem (c : Crypto) : Type 0 where
  pub decapsulate-encapsulate :
      (dk random ss ct : List ℕ)
      → c.mlkem_encapsulate (c.mlkem_public dk) random ≡ some (ss, ct)
      → c.mlkem_decapsulate dk ct ≡ some ss
  pub length-public : (dk : List ℕ) → length (c.mlkem_public dk) ≡ 1184
  pub length-ciphertext :
      (ek random ss ct : List ℕ) → c.mlkem_encapsulate ek random ≡ some (ss, ct) → length ct ≡ 1088
  pub exchange_comm :
      (a b : List ℕ) → c.x25519 a (c.x25519_public b) ≡ c.x25519 b (c.x25519_public a)
  pub length-x25519_public : (a : List ℕ) → length (c.x25519_public a) ≡ 32

-- ===== src/Kem.antt =====
-- The hybrid KEM X25519MLKEM768 of impl/go/kem.go.
pub mod Agreement
use npamp_protocol.Crypto.{Crypto}
use npamp_protocol.Prelude.{ℕ, List, ◌++◌, length, take, drop, Option, none, some}
use npamp_protocol.Prelude.{not, ◌==◌, Result, ok, err, ◌>>=◌, ◌>>◌, fail_if}

abbrev pub kem_share_size : ℕ
kem_share_size = 1216

abbrev pub kem_ciphertext_size : ℕ
kem_ciphertext_size = 1120

pub data KemError : Type 0 where
  bad_kem_share_size bad_kem_ciphertext_size mlkem_error x25519_error : KemError

pub record SharedSecrets : Type 0 where
  pub mlkem : List ℕ
  pub x25519 : List ℕ

-- SharedSecrets.Combined
unfoldable pub combined : SharedSecrets → List ℕ
combined s = s.mlkem ++ s.x25519

pub record KemClient : Type 0 where
  pub mlkem_key : List ℕ
  pub x25519_key : List ℕ

abbrev pub or_fail : {A : Type 0} → Option A → KemError → Result KemError A
or_fail none e = err e
or_fail (some a) e = ok a

module _ (c : Crypto) where
  -- KEMClient.KEMShare
  unfoldable pub kem_share_of : KemClient → List ℕ
  kem_share_of k = c.mlkem_public k.mlkem_key ++ c.x25519_public k.x25519_key

  -- KEMClient.SharedSecrets
  unfoldable pub shared_secrets : KemClient → List ℕ → Result KemError SharedSecrets
  shared_secrets k kem_ciphertext = do
    fail_if (not (length kem_ciphertext == kem_ciphertext_size)) bad_kem_ciphertext_size
    mlkem_ss ← or_fail (c.mlkem_decapsulate k.mlkem_key (take 1088 kem_ciphertext)) mlkem_error
    x_ss ← or_fail (c.x25519 k.x25519_key (drop 1088 kem_ciphertext)) x25519_error
    ok (record { mlkem = mlkem_ss; x25519 = x_ss })

  -- EncapsulateWith, with the randomness of the encapsulation.
  unfoldable pub encapsulate_with :
      List ℕ → List ℕ → List ℕ → Result KemError (List ℕ × SharedSecrets)
  encapsulate_with kem_share server_x25519 random = do
    fail_if (not (length kem_share == kem_share_size)) bad_kem_share_size
    (mlkem_ss, ct) ← or_fail (c.mlkem_encapsulate (take 1184 kem_share) random) mlkem_error
    x_ss ← or_fail (c.x25519 server_x25519 (drop 1184 kem_share)) x25519_error
    ok (ct ++ c.x25519_public server_x25519, record { mlkem = mlkem_ss; x25519 = x_ss })

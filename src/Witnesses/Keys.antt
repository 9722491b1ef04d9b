-- ===== src/Witnesses/Keys.antt =====
-- The key schedule and the KEM with the toy functions (impl/go/keyschedule.go, aead.go, kem.go).
use npamp_protocol.Witnesses.Toys.{toy, toy-IsKem, encapsulate_toy}
use npamp_protocol.Kem.{KemClient, SharedSecrets, kem_share_of, encapsulate_with, shared_secrets}
use npamp_protocol.Kem.Agreement.{shared_secrets-encapsulate_with}
use npamp_protocol.KeySchedule.{client_to_server}
use npamp_protocol.KeySchedule.Nonces.{derive_nonce-injective}
use npamp_protocol.KeySchedule.Separation.{hkdf_info-traffic_context}
use npamp_protocol.Prelude.{ℕ, ◌≡◌, refl, arith, List, [], ◌∷◌, ◌++◌, replicate, ok}
use npamp_protocol.Prelude.Bytes.{put_be, get_be}

abbrev pub sample_client : KemClient
sample_client = record { mlkem_key = 5 ∷ []; x25519_key = 6 ∷ [] }

abbrev pub sample_random : List ℕ
sample_random = replicate 1088 9

abbrev sample_secrets : SharedSecrets
sample_secrets = record { mlkem = sample_random; x25519 = put_be 32 13 }

abbrev sample_ct : List ℕ
sample_ct = sample_random ++ put_be 32 7

encapsulate_test :
    encapsulate_with toy (kem_share_of toy sample_client) (7 ∷ []) sample_random
    ≡ ok (sample_ct, sample_secrets)
unfolding encapsulate_with kem_share_of encapsulate_toy put_be get_be
encapsulate_test = refl

shared_secrets-encapsulate_with_example :
    shared_secrets toy sample_client sample_ct ≡ ok sample_secrets
shared_secrets-encapsulate_with_example =
    shared_secrets-encapsulate_with toy toy-IsKem sample_client (7 ∷ []) sample_random sample_ct
      sample_secrets encapsulate_test

derive_nonce-injective_example : ◌≡◌ {A = ℕ} 3 3
derive_nonce-injective_example =
    derive_nonce-injective (1 ∷ 2 ∷ []) 3 3 (omega arith, (omega arith, tt)) (omega arith)
      (omega arith) refl

hkdf_info-traffic_context_example :
    (◌≡◌ {A = List ℕ} (b'k' ∷ []) (b'k' ∷ []))
    × (◌≡◌ {A = ℕ} 32 32)
    × (client_to_server ≡ client_to_server)
    × (◌≡◌ {A = ℕ} 2 2)
    × (◌≡◌ {A = ℕ} 1 1)
    × (◌≡◌ {A = ℕ} 3 3)
hkdf_info-traffic_context_example =
    hkdf_info-traffic_context (b'k' ∷ []) (b'k' ∷ []) 32 32 client_to_server client_to_server 2 2 1
      1 3 3 (omega arith, omega arith) (omega arith, omega arith) (omega arith, omega arith)
      (omega arith, omega arith) (omega arith, omega arith) refl

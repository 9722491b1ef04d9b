-- ===== src/KeySchedule.antt =====
-- The key schedule and the AEAD of impl/go/keyschedule.go and impl/go/aead.go, and the transcript of
-- impl/go/transcript.go. Erasing an intermediate secret has no counterpart.
pub mod Nonces
pub mod Separation
use Prim.Native.Nat.{bit_xor}
use npamp_protocol.Crypto.{Crypto}
use npamp_protocol.Tlv.{Tlv, encode}
use npamp_protocol.Prelude.{ℕ, ◌%◌, ◌^◌, List, [], ◌∷◌, ◌++◌, length, take, replicate}
use npamp_protocol.Prelude.{Option, none, some, ◌==◌, if◌then◌else◌, get_or}
use npamp_protocol.Prelude.{Result, ok, err, ◌>>=◌, ◌>>◌}
use npamp_protocol.Prelude.Bytes.{put_be}

-- "n-pamp "
abbrev pub label_prefix : List ℕ
label_prefix = b'n' ∷ b'-' ∷ b'p' ∷ b'a' ∷ b'm' ∷ b'p' ∷ b' ' ∷ []

pub data KeyDirection : Type 0 where
  client_to_server server_to_client : KeyDirection

abbrev pub direction_octet : KeyDirection → ℕ
direction_octet client_to_server = 0
direction_octet server_to_client = 1

abbrev pub profile_standard : ℕ
profile_standard = 0x01

abbrev pub aead_aes_256_gcm : ℕ
aead_aes_256_gcm = 0x0001

abbrev pub hash_size : ℕ
hash_size = 32

pub data KeyError : Type 0 where
  no_suite_for_profile hkdf_error no_aead_suite open_failed : KeyError

-- The profile's hash is SHA-256, or there is none.
abbrev pub hash_for_profile : ℕ → Result KeyError (Unit {0})
hash_for_profile p = if p == profile_standard then ok tt else err no_suite_for_profile

abbrev pub or_hkdf_error : Option (List ℕ) → Result KeyError (List ℕ)
or_hkdf_error none = err hkdf_error
or_hkdf_error (some out) = ok out

-- The HkdfLabel structure; `byte(len(...))` and `uint16(length)` cut.
unfoldable pub hkdf_info : List ℕ → List ℕ → ℕ → List ℕ
hkdf_info label context len =
    let full = label_prefix ++ label in
    put_be 2 (len % 2 ^ 16) ++ (length full % 256 ∷ (full ++ (length context % 256 ∷ context)))

-- The context of a traffic secret.
unfoldable pub traffic_context : KeyDirection → ℕ → ℕ → ℕ → List ℕ
traffic_context dir epoch suite channel =
    direction_octet dir ∷ (put_be 8 epoch ++ (put_be 2 suite ++ put_be 2 channel))

-- "traffic", "c hs", "s hs", "master", "finished", "master ratchet", "master ratchet rekem", "key", "iv"
abbrev pub label_traffic : List ℕ
label_traffic = b't' ∷ b'r' ∷ b'a' ∷ b'f' ∷ b'f' ∷ b'i' ∷ b'c' ∷ []

abbrev pub label_c_hs : List ℕ
label_c_hs = b'c' ∷ b' ' ∷ b'h' ∷ b's' ∷ []

abbrev pub label_s_hs : List ℕ
label_s_hs = b's' ∷ b' ' ∷ b'h' ∷ b's' ∷ []

abbrev pub label_master : List ℕ
label_master = b'm' ∷ b'a' ∷ b's' ∷ b't' ∷ b'e' ∷ b'r' ∷ []

abbrev pub label_finished : List ℕ
label_finished = b'f' ∷ b'i' ∷ b'n' ∷ b'i' ∷ b's' ∷ b'h' ∷ b'e' ∷ b'd' ∷ []

abbrev pub label_ratchet : List ℕ
label_ratchet = label_master ++ (b' ' ∷ b'r' ∷ b'a' ∷ b't' ∷ b'c' ∷ b'h' ∷ b'e' ∷ b't' ∷ [])

abbrev pub label_rekem : List ℕ
label_rekem = label_ratchet ++ (b' ' ∷ b'r' ∷ b'e' ∷ b'k' ∷ b'e' ∷ b'm' ∷ [])

abbrev pub label_key : List ℕ
label_key = b'k' ∷ b'e' ∷ b'y' ∷ []

abbrev pub label_iv : List ℕ
label_iv = b'i' ∷ b'v' ∷ []

-- copy into an array of n octets that are zero before.
abbrev pub copy_into : ℕ → List ℕ → List ℕ
copy_into n xs = take n (xs ++ replicate n 0)

module _ (c : Crypto) where
  unfoldable pub hkdf_expand_label : List ℕ → List ℕ → List ℕ → ℕ → Result KeyError (List ℕ)
  unfolding hkdf_info
  hkdf_expand_label secret label context len =
      or_hkdf_error (c.expand secret (hkdf_info label context len) len)

  unfoldable pub derive_traffic_secret :
      List ℕ → KeyDirection → ℕ → ℕ → ℕ → ℕ → Result KeyError (List ℕ)
  unfolding hkdf_expand_label traffic_context
  derive_traffic_secret master dir epoch suite channel p = do
    hash_for_profile p
    hkdf_expand_label master label_traffic (traffic_context dir epoch suite channel) hash_size

  -- The combined shared secret, with a salt of zeros.
  unfoldable pub handshake_secret : List ℕ → ℕ → Result KeyError (List ℕ)
  handshake_secret combined p = do
    hash_for_profile p
    or_hkdf_error (c.extract combined (replicate hash_size 0))

  unfoldable pub derive_handshake_traffic_secrets :
      List ℕ → List ℕ → ℕ → Result KeyError (List ℕ × List ℕ)
  unfolding hkdf_expand_label
  derive_handshake_traffic_secrets secret th_kem p = do
    hash_for_profile p
    c_hs ← hkdf_expand_label secret label_c_hs th_kem hash_size
    s_hs ← hkdf_expand_label secret label_s_hs th_kem hash_size
    ok (c_hs, s_hs)

  unfoldable pub derive_master_secret : List ℕ → List ℕ → ℕ → Result KeyError (List ℕ)
  unfolding hkdf_expand_label
  derive_master_secret secret th_ccv p = do
    hash_for_profile p
    hkdf_expand_label secret label_master th_ccv hash_size

  unfoldable pub derive_finished_key : List ℕ → ℕ → Result KeyError (List ℕ)
  unfolding hkdf_expand_label
  derive_finished_key secret p = do
    hash_for_profile p
    hkdf_expand_label secret label_finished [] hash_size

  unfoldable pub ratchet_master_tier1 : List ℕ → ℕ → ℕ → Result KeyError (List ℕ)
  unfolding hkdf_expand_label
  ratchet_master_tier1 master target_gen p = do
    hash_for_profile p
    hkdf_expand_label master label_ratchet (put_be 8 target_gen) hash_size

  unfoldable pub ratchet_master_tier2 : List ℕ → List ℕ → List ℕ → ℕ → Result KeyError (List ℕ)
  unfolding hkdf_expand_label
  ratchet_master_tier2 master new_ss th_rekem p = do
    hash_for_profile p
    rekem_secret ← or_hkdf_error (c.extract new_ss master)
    hkdf_expand_label rekem_secret label_rekem th_rekem hash_size

  unfoldable pub derive_key_iv : List ℕ → ℕ → Result KeyError (List ℕ × List ℕ)
  unfolding hkdf_expand_label
  derive_key_iv secret p = do
    hash_for_profile p
    k ← hkdf_expand_label secret label_key [] 32
    v ← hkdf_expand_label secret label_iv [] 12
    ok (copy_into 32 k, copy_into 12 v)

-- `n[i] ^= iv[i]` for the octets of an iv, with the nonce's octets beside it.
unfoldable pub xor_octets : List ℕ → List ℕ → List ℕ
xor_octets [] iv = []
xor_octets (n ∷ ns) [] = n ∷ ns
xor_octets (n ∷ ns) (v ∷ iv) = bit_xor n v ∷ xor_octets ns iv

unfoldable pub derive_nonce : List ℕ → ℕ → List ℕ
unfolding xor_octets
derive_nonce iv seq = xor_octets (replicate 4 0 ++ put_be 8 seq) iv

-- A key of 32 octets makes a cipher, so the errors of aes.NewCipher and cipher.NewGCM do not arise.
module _ (c : Crypto) where
  unfoldable pub seal_aes_256_gcm : List ℕ → List ℕ → ℕ → List ℕ → List ℕ → List ℕ
  seal_aes_256_gcm key iv seq aad plaintext = c.seal key (derive_nonce iv seq) plaintext aad

  unfoldable pub open_aes_256_gcm : List ℕ → List ℕ → ℕ → List ℕ → List ℕ → Option (List ℕ)
  open_aes_256_gcm key iv seq aad sealed = c.unseal key (derive_nonce iv seq) sealed aad

-- SelectAEAD
unfoldable pub select_aead : List ℕ → ℕ → Result KeyError ℕ
select_aead [] seq = err no_aead_suite
select_aead (s ∷ suites) seq = ok (get_or (s ∷ suites) (seq % length (s ∷ suites)) s)

-- A Transcript is the octets that were added; NewTranscript starts with none.
unfoldable pub new_transcript : ℕ → Result KeyError (List ℕ)
new_transcript p = hash_for_profile p >> ok []

unfoldable pub add_frame_type : ℕ → List ℕ → List ℕ
add_frame_type ft buf = buf ++ put_be 2 ft

unfoldable pub add_tlv : Tlv → List ℕ → List ℕ
add_tlv t buf = encode t buf

unfoldable pub add_tlvs : List Tlv → List ℕ → List ℕ
unfolding add_tlv
add_tlvs [] buf = buf
add_tlvs (t ∷ tlvs) buf = add_tlvs tlvs (add_tlv t buf)

-- AddFrame
unfoldable pub add_frame : ℕ → List Tlv → List ℕ → List ℕ
unfolding add_frame_type add_tlvs
add_frame ft tlvs buf = add_tlvs tlvs (add_frame_type ft buf)

-- Transcript.Sum
unfoldable pub sum : Crypto → List ℕ → List ℕ
sum c buf = c.sha256 buf

-- ===== src/Session/Markers.antt =====
-- The payloads of the control frames of impl/go/sdk/keyupdate.go and ratchet.go, and the transcript
-- of a re-KEM.
use npamp_protocol.Crypto.{Crypto}
use npamp_protocol.KeySchedule.{KeyError, new_transcript, add_frame_type, add_tlv, sum}
use npamp_protocol.Kem.{kem_share_size, kem_ciphertext_size}
use npamp_protocol.Session.State.{ConnError, bad_marker, wrong_share_size}
use npamp_protocol.Tlv.{
  Tlv, encode, decode_tlvs, kem_share, kem_ciphertext, key_update_marker_tag, ratchet_generation,
}
use npamp_protocol.Prelude.{ℕ, List, [], ◌∷◌, length, Result, ok, err, ◌>>=◌, ◌>>◌, fail_if}
use npamp_protocol.Prelude.{not, ◌==◌, ◌||◌}
use npamp_protocol.Prelude.Bytes.{put_be, get_be}

abbrev pub frame_master_ratchet : ℕ
frame_master_ratchet = 0x0104

abbrev pub frame_master_ratchet_ack : ℕ
frame_master_ratchet_ack = 0x0105

abbrev pub frame_rekem : ℕ
frame_rekem = 0x0106

abbrev pub frame_rekem_ack : ℕ
frame_rekem_ack = 0x0107

abbrev pub tlv_of : ℕ → List ℕ → Tlv
tlv_of t v = record { type = t; value = v }

abbrev pub tlvs_of : List ℕ → Result ConnError (List Tlv)
tlvs_of payload = elim (decode_tlvs payload) [ ok tlvs ↦ ok tlvs | err e ↦ err bad_marker ]

unfoldable pub key_update_marker : ℕ → List ℕ
key_update_marker epoch = encode (tlv_of key_update_marker_tag (put_be 8 epoch)) []

unfoldable pub ratchet_gen_marker : ℕ → List ℕ
ratchet_gen_marker gen = encode (tlv_of ratchet_generation (put_be 8 gen)) []

-- The one TLV of a marker.
abbrev pub marker_in : ℕ → List Tlv → Result ConnError ℕ
marker_in tag [] = err bad_marker
marker_in tag (t ∷ []) = do
  fail_if (not (t.type == tag)) bad_marker
  fail_if (not (length t.value == 8)) bad_marker
  ok (get_be t.value)
marker_in tag (t ∷ u ∷ tlvs) = err bad_marker

unfoldable pub parse_key_update_marker : List ℕ → Result ConnError ℕ
parse_key_update_marker payload = do tlvs ← tlvs_of payload; marker_in key_update_marker_tag tlvs

unfoldable pub parse_ratchet_gen_marker : List ℕ → Result ConnError ℕ
parse_ratchet_gen_marker payload = do tlvs ← tlvs_of payload; marker_in ratchet_generation tlvs

unfoldable pub encode_rekem : List ℕ → ℕ → List ℕ
encode_rekem share gen =
    encode (tlv_of ratchet_generation (put_be 8 gen)) (encode (tlv_of kem_share share) [])

unfoldable pub encode_rekem_ack : List ℕ → ℕ → List ℕ
encode_rekem_ack ct gen =
    encode (tlv_of ratchet_generation (put_be 8 gen)) (encode (tlv_of kem_ciphertext ct) [])

-- The two TLVs of a request or of its acknowledgement.
abbrev pub pair_in : ℕ → ℕ → List Tlv → Result ConnError (List ℕ × ℕ)
pair_in tag size [] = err bad_marker
pair_in tag size (t ∷ []) = err bad_marker
pair_in tag size (t ∷ g ∷ []) = do
  fail_if (not (t.type == tag) || not (g.type == ratchet_generation)) bad_marker
  fail_if (not (length t.value == size)) wrong_share_size
  fail_if (not (length g.value == 8)) bad_marker
  ok (t.value, get_be g.value)
pair_in tag size (t ∷ g ∷ u ∷ tlvs) = err bad_marker

unfoldable pub parse_rekem : List ℕ → Result ConnError (List ℕ × ℕ)
parse_rekem payload = do tlvs ← tlvs_of payload; pair_in kem_share kem_share_size tlvs

unfoldable pub parse_rekem_ack : List ℕ → Result ConnError (List ℕ × ℕ)
parse_rekem_ack payload = do tlvs ← tlvs_of payload; pair_in kem_ciphertext kem_ciphertext_size tlvs

-- thRekem
unfoldable pub th_rekem : Crypto → ℕ → List ℕ → List ℕ → ℕ → Result KeyError (List ℕ)
th_rekem c p share ct gen = do
  tr ← new_transcript p
  let request =
      add_tlv (tlv_of ratchet_generation (put_be 8 gen))
        (add_tlv (tlv_of kem_share share) (add_frame_type frame_rekem tr))
  ok (
      sum c (
        add_tlv (tlv_of ratchet_generation (put_be 8 gen))
          (add_tlv (tlv_of kem_ciphertext ct) (add_frame_type frame_rekem_ack request))))

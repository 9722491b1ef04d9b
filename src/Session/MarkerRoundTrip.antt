-- ===== src/Session/MarkerRoundTrip.antt =====
-- The payloads of the control frames are read back (impl/go/sdk/keyupdate.go, ratchet.go).
use npamp_protocol.Kem.{kem_share_size, kem_ciphertext_size}
use npamp_protocol.Session.Markers.{
  key_update_marker, ratchet_gen_marker, parse_key_update_marker, parse_ratchet_gen_marker,
  encode_rekem, encode_rekem_ack, parse_rekem, parse_rekem_ack, tlv_of, tlvs_of, marker_in, pair_in,
}
use npamp_protocol.Tlv.{
  Tlv, encode, encode_all, kem_share, kem_ciphertext, key_update_marker_tag, ratchet_generation,
}
use npamp_protocol.Tlv.RoundTrip.{IsWireTlv, decode_tlvs-encode_all}
use npamp_protocol.Prelude.{ℕ, ◌^◌, ◌<◌, ◌≡◌, arith}
use npamp_protocol.Prelude.{List, [], ◌∷◌, length, All, ok}
use npamp_protocol.Prelude.Bytes.{put_be, get_be-put_be, length-put_be}

number_tlv-IsWireTlv : (tag n : ℕ) → tag < 2 ^ 16 → IsWireTlv (tlv_of tag (put_be 8 n))
number_tlv-IsWireTlv tag n h = record {
  type_fits = h;
  value_fits = omega (arith, length-put_be 8 n);
}

tlvs_of-encode_all :
    (tlvs : List Tlv)
    → All IsWireTlv tlvs
    → length tlvs < 64
    → tlvs_of (encode_all [] tlvs) ≡ ok tlvs
tlvs_of-encode_all tlvs w h = rw (tlvs_of, decode_tlvs-encode_all tlvs w) (ground arith)

-- One TLV with a number of eight octets.
module _ (tag n : ℕ) (tag_fits : tag < 2 ^ 16) (fits : n < 2 ^ 64) where
  marker_in-put_be : marker_in tag (tlv_of tag (put_be 8 n) ∷ []) ≡ ok n
  marker_in-put_be = rw (length-put_be 8 n, get_be-put_be 8 n fits) (ground arith)

  marker-tlvs : tlvs_of (encode (tlv_of tag (put_be 8 n)) []) ≡ ok (tlv_of tag (put_be 8 n) ∷ [])
  unfolding encode_all
  marker-tlvs =
      tlvs_of-encode_all (tlv_of tag (put_be 8 n) ∷ []) (number_tlv-IsWireTlv tag n tag_fits, tt)
        (omega arith)

-- The epoch in a marker of KEY_UPDATE is read back.
pub parse_key_update_marker-key_update_marker :
    (epoch : ℕ) → epoch < 2 ^ 64 → parse_key_update_marker (key_update_marker epoch) ≡ ok epoch
unfolding parse_key_update_marker key_update_marker
parse_key_update_marker-key_update_marker epoch h =
    rw (marker-tlvs key_update_marker_tag epoch (omega arith) h)
      (marker_in-put_be key_update_marker_tag epoch (omega arith) h)

pub parse_ratchet_gen_marker-ratchet_gen_marker :
    (gen : ℕ) → gen < 2 ^ 64 → parse_ratchet_gen_marker (ratchet_gen_marker gen) ≡ ok gen
unfolding parse_ratchet_gen_marker ratchet_gen_marker
parse_ratchet_gen_marker-ratchet_gen_marker gen h =
    rw (marker-tlvs ratchet_generation gen (omega arith) h)
      (marker_in-put_be ratchet_generation gen (omega arith) h)

-- A value of the right size, and a generation.
module _ (tag size : ℕ) (value : List ℕ) (gen : ℕ) (tag_fits : tag < 2 ^ 16)
    (size_fits : size < 2 ^ 16) (sized : length value ≡ size) (fits : gen < 2 ^ 64) where
  abbrev two : List Tlv
  two = tlv_of tag value ∷ tlv_of ratchet_generation (put_be 8 gen) ∷ []

  pair_in-two : pair_in tag size two ≡ ok (value, gen)
  pair_in-two = rw (sized, length-put_be 8 gen, get_be-put_be 8 gen fits) (ground arith)

  two-tlvs :
      tlvs_of (encode (tlv_of ratchet_generation (put_be 8 gen)) (encode (tlv_of tag value) []))
      ≡ ok two
  unfolding encode_all
  two-tlvs =
      tlvs_of-encode_all two
        (
          record { type_fits = tag_fits; value_fits = omega (arith, sized, size_fits) },
          (number_tlv-IsWireTlv ratchet_generation gen (omega arith), tt),
        )
        (omega arith)

pub parse_rekem-encode_rekem :
    (share : List ℕ) (gen : ℕ)
    → length share ≡ kem_share_size
    → gen < 2 ^ 64
    → parse_rekem (encode_rekem share gen) ≡ ok (share, gen)
unfolding parse_rekem encode_rekem
parse_rekem-encode_rekem share gen e h =
    rw (two-tlvs kem_share kem_share_size share gen (omega arith) (omega arith) e h)
      (pair_in-two kem_share kem_share_size share gen (omega arith) (omega arith) e h)

pub parse_rekem_ack-encode_rekem_ack :
    (ct : List ℕ) (gen : ℕ)
    → length ct ≡ kem_ciphertext_size
    → gen < 2 ^ 64
    → parse_rekem_ack (encode_rekem_ack ct gen) ≡ ok (ct, gen)
unfolding parse_rekem_ack encode_rekem_ack
parse_rekem_ack-encode_rekem_ack ct gen e h =
    rw (two-tlvs kem_ciphertext kem_ciphertext_size ct gen (omega arith) (omega arith) e h)
      (pair_in-two kem_ciphertext kem_ciphertext_size ct gen (omega arith) (omega arith) e h)

-- ===== src/Witnesses/Codecs.antt =====
-- TLVs, CBOR values, ERROR bodies and outstanding acknowledgements (impl/go/tlv.go, memory_cbor.go,
-- errorframe.go, sdk/pendingack.go) on small inputs.
use npamp_protocol.Witnesses.Frames.{octets_fit, octets_fit→IsByte}
use npamp_protocol.Prelude.{false, ◌==◌}
use npamp_protocol.Prelude.{
  ℕ, zero, suc, ◌≤◌, ◌<◌, ◌^◌, ◌≡◌, ◌≢◌, ◌↔◌, refl, arith, List, [], ◌∷◌, length, All, replicate,
}
use npamp_protocol.Prelude.{true, ok, err}
use npamp_protocol.Prelude.Bytes.{IsByte, get_be}
use npamp_protocol.Prelude.Maps.{find}
use npamp_protocol.Tlv.{check_must_understand, forward_incompatible, unknown_critical_tlv}
use npamp_protocol.Tlv.Critical.{IsUnderstood, FirstUnknown, check_must_understand_iff}
use npamp_protocol.PendingAck.{consume_ratchet_ack}
use npamp_protocol.PendingAck.Rounds.{is_outstanding, consume_ratchet_ack_solicited}
use npamp_protocol.Tlv.{
  Tlv, stuck, decode_tlvs, decode_loop, decode_one, encode_all, max_tlvs_per_frame,
}
use npamp_protocol.Tlv.RoundTrip.{IsWireTlv, decode_tlvs-encode_all}
use npamp_protocol.Tlv.Decode.{encode_all-decode_tlvs, decode_tlvs-length, decode_tlvs-ne-stuck}
use npamp_protocol.Cbor.{Value, uint64, text, cbor_map, no_entry, entry, encode, encode_head}
use npamp_protocol.Cbor.Decoder.{decode_top, cbor_max_nesting_depth}
use npamp_protocol.Cbor.Canonical.{IsCanonical}
use npamp_protocol.Cbor.Strict.{decode_top-encode_iff}
use npamp_protocol.ErrorFrame.{
  malformed_error_body, encode_error_body, decode_error_body, read_uint, read_uint_arg, read_bstr,
}
use npamp_protocol.ErrorFrame.Body.{
  decode_error_body-encode_error_body, decode_error_body-long, encode_error_body-decode_error_body,
}
use npamp_protocol.PendingAck.{
  KeyUpdateAcks, add_key_update_ack, remove_key_update_ack, consume_key_update_ack,
}
use npamp_protocol.PendingAck.Counts.{
  outstanding, outstanding_lem, consume_key_update_ack_solicited,
}

abbrev sample_tlvs : List Tlv
sample_tlvs = record { type = 7; value = 1 ∷ 2 ∷ [] } ∷ record { type = 0x17; value = [] } ∷ []

abbrev tlv_octets : List ℕ
tlv_octets = 0 ∷ 7 ∷ 0 ∷ 2 ∷ 1 ∷ 2 ∷ 0 ∷ 0x17 ∷ 0 ∷ 0 ∷ []

sample_tlvs-IsWireTlv : All IsWireTlv sample_tlvs
sample_tlvs-IsWireTlv = (
  record { type_fits = omega arith; value_fits = omega arith },
  (record { type_fits = omega arith; value_fits = omega arith }, tt),
)

tlv_test : decode_tlvs tlv_octets ≡ ok sample_tlvs
unfolding decode_tlvs decode_loop decode_one get_be
tlv_test = refl

tlv_octets-IsByte : All IsByte tlv_octets
unfolding octets_fit
tlv_octets-IsByte = octets_fit→IsByte tlv_octets refl

decode_tlvs-encode_all_example : decode_tlvs (encode_all [] sample_tlvs) ≡ ok sample_tlvs
decode_tlvs-encode_all_example = decode_tlvs-encode_all sample_tlvs sample_tlvs-IsWireTlv

encode_all-decode_tlvs_example : encode_all [] sample_tlvs ≡ tlv_octets
encode_all-decode_tlvs_example =
    encode_all-decode_tlvs tlv_octets sample_tlvs tlv_octets-IsByte tlv_test

decode_tlvs-length_example : 2 ≤ max_tlvs_per_frame
decode_tlvs-length_example = decode_tlvs-length tlv_octets sample_tlvs tlv_test

decode_tlvs-ne-stuck_example : decode_tlvs tlv_octets ≢ err stuck
decode_tlvs-ne-stuck_example = decode_tlvs-ne-stuck tlv_octets

-- The map {0: 5, 1: "a"}.
abbrev sample_map : Value
sample_map =
    cbor_map
      (entry (0 ∷ []) (uint64 0) (uint64 5) (entry (1 ∷ []) (uint64 1) (text (97 ∷ [])) no_entry))

abbrev map_octets : List ℕ
map_octets = 0xa2 ∷ 0 ∷ 5 ∷ 1 ∷ 0x61 ∷ 97 ∷ []

map_octets-IsByte : All IsByte map_octets
unfolding octets_fit
map_octets-IsByte = octets_fit→IsByte map_octets refl

decode_top-encode_iff_example :
    (decode_top map_octets ≡ ok sample_map)
    ↔ (IsCanonical cbor_max_nesting_depth sample_map × (encode sample_map ≡ map_octets))
decode_top-encode_iff_example = decode_top-encode_iff map_octets sample_map map_octets-IsByte

-- One side of it holds.
encode_test : encode sample_map ≡ map_octets
unfolding encode encode_head
encode_test = refl

-- A replayed frame, with the context "ab".
abbrev body_octets : List ℕ
body_octets = 0xa2 ∷ 1 ∷ 3 ∷ 2 ∷ 0x42 ∷ 97 ∷ 98 ∷ []

body_octets-IsByte : All IsByte body_octets
unfolding octets_fit
body_octets-IsByte = octets_fit→IsByte body_octets refl

decode_error_body_test : decode_error_body body_octets ≡ ok (3, 97 ∷ 98 ∷ [])
unfolding decode_error_body read_uint read_uint_arg read_bstr
decode_error_body_test = refl

decode_error_body-encode_error_body_example :
    decode_error_body (encode_error_body 3 (97 ∷ 98 ∷ [])) ≡ ok (3, 97 ∷ 98 ∷ [])
decode_error_body-encode_error_body_example =
    decode_error_body-encode_error_body 3 (97 ∷ 98 ∷ []) (omega arith) (omega arith)

encode_error_body-decode_error_body_example :
    (3 < 256) × (encode_error_body 3 (97 ∷ 98 ∷ []) ≡ body_octets)
encode_error_body-decode_error_body_example =
    encode_error_body-decode_error_body body_octets 3 (97 ∷ 98 ∷ []) body_octets-IsByte
      decode_error_body_test

zeros : ℕ → List ℕ
zeros n = replicate n 0

length-zeros : (n : ℕ) → length (zeros n) ≡ n
unfolding zeros
length-zeros zero = refl
length-zeros (suc n) = omega (arith, length-zeros n)

decode_error_body-long_example :
    decode_error_body (encode_error_body 1 (zeros (2 ^ 16))) ≡ err malformed_error_body
decode_error_body-long_example =
    decode_error_body-long 1 (zeros (2 ^ 16)) (omega arith) (omega (arith, length-zeros (2 ^ 16)))

abbrev sample_acks : KeyUpdateAcks
sample_acks = (3, (7, 2) ∷ []) ∷ []

outstanding_lem_example :
    (outstanding (add_key_update_ack 3 7 sample_acks) 3 7 ≡ 3)
    × (outstanding (remove_key_update_ack 3 7 sample_acks) 3 7 ≡ 1)
unfolding find
outstanding_lem_example = outstanding_lem 3 7 3 7 sample_acks

consume_key_update_ack_solicited_example :
    ((consume_key_update_ack 3 7 sample_acks).1 ≡ true)
    × (outstanding (consume_key_update_ack 3 7 sample_acks).0 3 7 ≡ 1)
unfolding find
consume_key_update_ack_solicited_example = consume_key_update_ack_solicited 3 7 3 7 sample_acks

-- A critical TLV that is recognised, one that is not, and an optional one.
abbrev critical_tlvs : List Tlv
critical_tlvs =
    record { type = 0x8007; value = [] }
    ∷ record { type = 0xc001; value = 1 ∷ [] }
    ∷ record { type = 0x4001; value = [] }
    ∷ []

check_must_understand_iff_example :
    ((check_must_understand critical_tlvs (λ t. t == 0x8007) ≡ ok tt)
      ↔ All (IsUnderstood (λ t. t == 0x8007)) critical_tlvs)
    × ((typ : ℕ)
        → (check_must_understand critical_tlvs (λ t. t == 0x8007) ≡ err (unknown_critical_tlv typ))
          ↔ FirstUnknown (λ t. t == 0x8007) typ critical_tlvs)
check_must_understand_iff_example =
    check_must_understand_iff (λ t. t == 0x8007) critical_tlvs
      (omega arith, (omega arith, (omega arith, tt)))

-- An unknown TLV with the high bit is an error.
check_must_understand_test :
    check_must_understand (record { type = 0x8007; value = [] } ∷ []) (λ t. false)
    ≡ err (unknown_critical_tlv 0x8007)
unfolding check_must_understand forward_incompatible
check_must_understand_test = refl

consume_ratchet_ack_solicited_example :
    ((consume_ratchet_ack 2 ((2, tt) ∷ [])).1 ≡ true)
    × (is_outstanding 2 (consume_ratchet_ack 2 ((2, tt) ∷ [])).0 ≡ false)
unfolding find
consume_ratchet_ack_solicited_example = consume_ratchet_ack_solicited 2 2 ((2, tt) ∷ [])

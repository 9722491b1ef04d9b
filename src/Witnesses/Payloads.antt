-- ===== src/Witnesses/Payloads.antt =====
-- The validators of operation bodies on two small payloads (impl/go/memory_bodies.go,
-- settlement_bodies.go, workflow_bodies.go, telemetry_bodies.go).
use npamp_protocol.Witnesses.Frames.{octets_fit, octets_fit→IsByte}
use npamp_protocol.Prelude.{ℕ, ◌≡◌, ◌↔◌, refl, List, [], ◌∷◌, All, ok, err, bytes_eq}
use npamp_protocol.Prelude.Bytes.{IsByte, get_be}
use npamp_protocol.Cbor.{
  uint64, bytes, text, Entries, no_entry, entry, encode, encode_head, byte_less,
}
use npamp_protocol.Cbor.Decoder.{
  decode_top, decode, decode_arg, decode_major, decode_string, decode_items, decode_entries,
  out_of_order,
}
use npamp_protocol.Bodies.{
  get, matches_kind, check_field, check_schema, check_fields, must, k_text, wrong_type,
}
use npamp_protocol.Bodies.Accepted.{FieldFits, AllKeysFit, check_fields_iff}
use npamp_protocol.Bodies.Payload.{
  IsBody, validate_memory_payload_iff, validate_settlement_payload_iff,
}
use npamp_protocol.Bodies.Memory.{memory_schemas, validate_memory_payload}
use npamp_protocol.Bodies.Settlement.{settlement_schemas, validate_settlement_payload}

-- {0: kind, 1: h'01', 2: "a", 3: 0}
abbrev read_request : Entries
read_request = entry (0 ∷ []) (uint64 0) (uint64 0x0102) (
    entry (1 ∷ []) (uint64 1) (bytes (1 ∷ []))
      (entry (2 ∷ []) (uint64 2) (text (97 ∷ [])) (entry (3 ∷ []) (uint64 3) (uint64 0) no_entry)))

abbrev read_octets : List ℕ
read_octets = 0xa4 ∷ 0 ∷ 0x19 ∷ 1 ∷ 2 ∷ 1 ∷ 0x41 ∷ 1 ∷ 2 ∷ 0x61 ∷ 97 ∷ 3 ∷ 0 ∷ []

read_octets-IsByte : All IsByte read_octets
unfolding octets_fit
read_octets-IsByte = octets_fit→IsByte read_octets refl

validate_memory_test : validate_memory_payload 0x0102 read_octets ≡ ok read_request
unfolding validate_memory_payload memory_schemas decode_top decode decode_arg decode_major
    decode_string decode_items decode_entries out_of_order byte_less get_be encode encode_head
    bytes_eq check_schema check_field matches_kind
validate_memory_test = refl

-- A read request is no receipt request: its key 3 is no text.
validate_settlement_test : validate_settlement_payload 0x0102 read_octets ≡ err (wrong_type 3)
unfolding validate_settlement_payload settlement_schemas decode_top decode decode_arg decode_major
    decode_string decode_items decode_entries out_of_order byte_less get_be encode encode_head
    bytes_eq check_schema check_field matches_kind
validate_settlement_test = refl

validate_memory_payload_iff_example :
    (validate_memory_payload 0x0102 read_octets ≡ ok read_request)
    ↔ IsBody memory_schemas 0x0102 read_octets read_request
validate_memory_payload_iff_example =
    validate_memory_payload_iff 0x0102 read_octets read_request read_octets-IsByte

validate_settlement_payload_iff_example :
    (validate_settlement_payload 0x0102 read_octets ≡ ok read_request)
    ↔ IsBody settlement_schemas 0x0102 read_octets read_request
validate_settlement_payload_iff_example =
    validate_settlement_payload_iff 0x0102 read_octets read_request read_octets-IsByte

check_fields_iff_example : (check_fields read_request (must 2 k_text ∷ []) ≡ ok tt) ↔ (
    All (λ f. FieldFits (get f.key read_request) f) (must 2 k_text ∷ []) × AllKeysFit read_request)
check_fields_iff_example = check_fields_iff read_request (must 2 k_text ∷ [])

-- ===== src/Witnesses/Proposals.antt =====
-- A settlement intent of one party and one leg (impl/go/commerce_bodies.go).
use npamp_protocol.Bodies.Commerce.{
  commerce_intent_propose_req, commerce_schemas, is_party, parties_in, text_at, check_scale,
  check_units, check_legs, commerce_parties, validate_commerce_nested, validate_commerce_payload,
}
use npamp_protocol.Bodies.Proposals.{IsProposal, validate_commerce_payload-IsProposal}
use npamp_protocol.Bodies.{Malformed, check_schema, check_field, matches_kind}
use npamp_protocol.Cbor.{Entries, no_entry, encode, encode_head, byte_less}
use npamp_protocol.Cbor.Decoder.{
  decode_top, decode, decode_arg, decode_major, decode_string, decode_items, decode_entries,
  out_of_order,
}
use npamp_protocol.Prelude.{ℕ, List, [], ◌∷◌, ◌≡◌, refl, Result, ok, err, bytes_eq}
use npamp_protocol.Prelude.Bytes.{get_be}

-- {0: kind, 1: h'01', 2: ["a"], 3: [{0: "a", 1: "a", 2: {0: 5, 1: 2, 2: "x"}}], 7: 0}
abbrev proposal : List ℕ
proposal =
    0xa5 ∷ 0 ∷ 0x19 ∷ 1 ∷ 8 ∷ 1 ∷ 0x41 ∷ 1 ∷ 2 ∷ 0x81 ∷ 0x61 ∷ 97 ∷ 3 ∷ 0x81 ∷ 0xa3 ∷ 0 ∷ 0x61 ∷ 97
    ∷ 1 ∷ 0x61 ∷ 97 ∷ 2 ∷ 0xa3 ∷ 0 ∷ 5 ∷ 1 ∷ 2 ∷ 2 ∷ 0x61 ∷ 120 ∷ 7 ∷ 0 ∷ []

abbrev or_no_entry : Result Malformed Entries → Entries
or_no_entry (ok m) = m
or_no_entry (err e) = no_entry

abbrev proposed : Entries
proposed = or_no_entry (validate_commerce_payload commerce_intent_propose_req proposal)

proposal_test : validate_commerce_payload commerce_intent_propose_req proposal ≡ ok proposed
unfolding validate_commerce_payload commerce_schemas decode_top decode decode_arg decode_major
    decode_string decode_items decode_entries out_of_order byte_less get_be encode encode_head
    bytes_eq check_schema check_field matches_kind is_party parties_in text_at check_scale
    check_units check_legs commerce_parties validate_commerce_nested
proposal_test = refl

validate_commerce_payload-IsProposal_example : IsProposal proposed
validate_commerce_payload-IsProposal_example =
    validate_commerce_payload-IsProposal proposal proposed proposal_test

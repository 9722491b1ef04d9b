-- ===== src/Bodies/Capability.antt =====
-- The Capability bodies, impl/go/capability_bodies.go.
use npamp_protocol.Bodies.{MemField, must, may, k_uint, k_text, k_bytes, k_map, k_array, k_bool}
use npamp_protocol.Bodies.{
  Malformed, nil_record, known_schema, get, check_fields, as_map, check_frame_kind, check_corr,
}
use npamp_protocol.Cbor.{Entries}
use npamp_protocol.Cbor.Decoder.{decode_top}
use npamp_protocol.Prelude.{ℕ, List, [], ◌∷◌, Option, some, none}
use npamp_protocol.Prelude.{Result, ok, err, ◌>>=◌, ◌>>◌}
use npamp_protocol.Prelude.Maps.{find}

abbrev pub cap_issue_req : ℕ
cap_issue_req = 0x0100

abbrev pub cap_issue_result : ℕ
cap_issue_result = 0x0101

abbrev pub cap_delegate_req : ℕ
cap_delegate_req = 0x0102

abbrev pub cap_delegate_result : ℕ
cap_delegate_result = 0x0103

abbrev pub cap_revoke_req : ℕ
cap_revoke_req = 0x0104

abbrev pub cap_revoke_result : ℕ
cap_revoke_result = 0x0105

abbrev pub cap_lookup_req : ℕ
cap_lookup_req = 0x0106

abbrev pub cap_lookup_result : ℕ
cap_lookup_result = 0x0107

abbrev pub cap_error : ℕ
cap_error = 0x0108

abbrev pub cap_token_present : ℕ
cap_token_present = 0x0060

abbrev pub cap_token_accept : ℕ
cap_token_accept = 0x0061

abbrev pub cap_token_challenge : ℕ
cap_token_challenge = 0x0062

abbrev pub cap_token_proof : ℕ
cap_token_proof = 0x0063

unfoldable pub capability_schemas : List (ℕ × List MemField)
capability_schemas =
    (
      cap_issue_req,
      must 2 k_text
          ∷ must 3 k_text
          ∷ may 4 k_map
          ∷ may 5 k_text
          ∷ may 6 k_text
          ∷ may 7 k_uint
          ∷ may 8 k_text
          ∷ must 9 k_uint
          ∷ [],
    )
    ∷ (cap_issue_result, must 2 k_map ∷ must 3 k_text ∷ [])
    ∷ (
      cap_delegate_req,
      must 2 k_text
          ∷ must 3 k_text
          ∷ may 4 k_map
          ∷ may 5 k_text
          ∷ may 6 k_uint
          ∷ must 7 k_uint
          ∷ [],
    )
    ∷ (cap_delegate_result, must 2 k_map ∷ must 3 k_text ∷ [])
    ∷ (cap_revoke_req, must 2 k_text ∷ may 3 k_bool ∷ may 4 k_text ∷ must 5 k_uint ∷ [])
    ∷ (cap_revoke_result, must 2 k_text ∷ must 3 k_text ∷ may 4 k_uint ∷ [])
    ∷ (
      cap_lookup_req,
      may 2 k_text
          ∷ may 3 k_text
          ∷ may 4 k_text
          ∷ may 5 k_bool
          ∷ may 6 k_uint
          ∷ may 7 k_bytes
          ∷ must 8 k_uint
          ∷ [],
    )
    ∷ (cap_lookup_result, must 2 k_array ∷ must 3 k_bool ∷ may 4 k_bytes ∷ [])
    ∷ (cap_error, must 2 k_uint ∷ must 3 k_text ∷ may 4 k_uint ∷ may 5 k_text ∷ [])
    ∷ (cap_token_present, must 2 k_map ∷ may 3 k_array ∷ must 4 k_uint ∷ [])
    ∷ (cap_token_accept, must 2 k_text ∷ must 3 k_text ∷ [])
    ∷ (cap_token_challenge, must 2 k_text ∷ must 3 k_bytes ∷ must 4 k_uint ∷ [])
    ∷ (cap_token_proof, must 2 k_text ∷ must 3 k_bytes ∷ [])
    ∷ []

unfoldable pub validate_capability_payload : ℕ → List ℕ → Result Malformed Entries
unfolding find capability_schemas as_map get check_frame_kind check_corr check_fields
validate_capability_payload ft payload = do
  schema ← known_schema (find ft capability_schemas)
  m ← as_map (decode_top payload)
  check_frame_kind ft (get 0 m)
  check_corr (get 1 m)
  check_fields m schema
  ok m

unfoldable pub capability_token_schema : List MemField
capability_token_schema =
    must 0 k_text
    ∷ must 1 k_text
    ∷ must 2 k_text
    ∷ must 3 k_text
    ∷ may 4 k_map
    ∷ may 5 k_text
    ∷ may 6 k_text
    ∷ may 7 k_text
    ∷ may 8 k_uint
    ∷ may 9 k_uint
    ∷ may 10 k_text
    ∷ may 11 k_text
    ∷ may 12 k_text
    ∷ may 13 k_text
    ∷ []

-- ValidateCapabilityToken; `none` is a nil token.
unfoldable pub validate_capability_token : Option Entries → Result Malformed (Unit {0})
unfolding capability_token_schema check_fields
validate_capability_token none = err nil_record
validate_capability_token (some tok) = check_fields tok capability_token_schema

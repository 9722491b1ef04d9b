-- ===== src/Bodies/Settlement.antt =====
-- The Settlement bodies, impl/go/settlement_bodies.go.
use npamp_protocol.Bodies.{MemField, must, may, k_uint, k_text, k_bytes, k_map}
use npamp_protocol.Bodies.{
  Malformed, nil_record, known_schema, get, check_fields, as_map, check_frame_kind, check_corr,
}
use npamp_protocol.Cbor.{Entries}
use npamp_protocol.Cbor.Decoder.{decode_top}
use npamp_protocol.Prelude.{ℕ, List, [], ◌∷◌, Option, some, none}
use npamp_protocol.Prelude.{Result, ok, err, ◌>>=◌, ◌>>◌}
use npamp_protocol.Prelude.Maps.{find}

abbrev pub settle_intent_req : ℕ
settle_intent_req = 0x0100

abbrev pub settle_intent_result : ℕ
settle_intent_result = 0x0101

abbrev pub receipt_req : ℕ
receipt_req = 0x0102

abbrev pub receipt_result : ℕ
receipt_result = 0x0103

abbrev pub settle_error : ℕ
settle_error = 0x0104

abbrev pub settle_batch_commit_req : ℕ
settle_batch_commit_req = 0x00a0

abbrev pub settle_batch_commit_result : ℕ
settle_batch_commit_result = 0x00a1

unfoldable pub settlement_schemas : List (ℕ × List MemField)
settlement_schemas =
    (
      settle_intent_req,
      must 2 k_text
          ∷ may 3 k_text
          ∷ may 4 k_text
          ∷ may 5 k_text
          ∷ may 6 k_text
          ∷ may 7 k_text
          ∷ must 8 k_uint
          ∷ [],
    )
    ∷ (settle_intent_result, must 2 k_text ∷ must 3 k_text ∷ may 4 k_text ∷ [])
    ∷ (receipt_req, must 2 k_text ∷ may 3 k_text ∷ must 4 k_uint ∷ [])
    ∷ (receipt_result, must 2 k_map ∷ [])
    ∷ (settle_error, must 2 k_uint ∷ must 3 k_text ∷ may 4 k_uint ∷ may 5 k_text ∷ [])
    ∷ (
      settle_batch_commit_req,
      must 2 k_text
          ∷ must 3 k_bytes
          ∷ may 4 k_text
          ∷ may 5 k_uint
          ∷ may 6 k_text
          ∷ must 7 k_uint
          ∷ [],
    )
    ∷ (settle_batch_commit_result, must 2 k_text ∷ must 3 k_text ∷ may 4 k_text ∷ [])
    ∷ []

unfoldable pub validate_settlement_payload : ℕ → List ℕ → Result Malformed Entries
unfolding find settlement_schemas as_map get check_frame_kind check_corr check_fields
validate_settlement_payload ft payload = do
  schema ← known_schema (find ft settlement_schemas)
  m ← as_map (decode_top payload)
  check_frame_kind ft (get 0 m)
  check_corr (get 1 m)
  check_fields m schema
  ok m

unfoldable pub settlement_receipt_schema : List MemField
settlement_receipt_schema =
    must 0 k_text
    ∷ must 1 k_text
    ∷ may 2 k_text
    ∷ may 3 k_text
    ∷ may 4 k_text
    ∷ must 5 k_text
    ∷ may 6 k_text
    ∷ may 7 k_text
    ∷ may 8 k_text
    ∷ may 9 k_text
    ∷ may 10 k_text
    ∷ []

-- A nil map is `none`.
unfoldable pub validate_settlement_receipt : Option Entries → Result Malformed (Unit {0})
unfolding settlement_receipt_schema check_fields
validate_settlement_receipt none = err nil_record
validate_settlement_receipt (some rec) = check_fields rec settlement_receipt_schema

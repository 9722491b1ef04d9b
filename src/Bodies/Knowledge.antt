-- ===== src/Bodies/Knowledge.antt =====
-- The Knowledge bodies, impl/go/knowledge_bodies.go.
use npamp_protocol.Bodies.{MemField, must, may, k_uint, k_text, k_bytes, k_array, k_bool}
use npamp_protocol.Bodies.{
  Malformed, empty_update, known_schema, get, check_fields, as_map, check_frame_kind, check_corr,
}
use npamp_protocol.Cbor.{Entries, Value}
use npamp_protocol.Cbor.Decoder.{decode_top}
use npamp_protocol.Prelude.{ℕ, List, [], ◌∷◌, Option, some, none, Bool, true, false, ◌==◌, ◌&&◌}
use npamp_protocol.Prelude.{Result, ok, ◌>>=◌, ◌>>◌, fail_if}
use npamp_protocol.Prelude.Maps.{find}

abbrev pub knowledge_query_req : ℕ
knowledge_query_req = 0x0100

abbrev pub knowledge_query_result : ℕ
knowledge_query_result = 0x0101

abbrev pub knowledge_query_stream_data : ℕ
knowledge_query_stream_data = 0x0102

abbrev pub knowledge_query_stream_end : ℕ
knowledge_query_stream_end = 0x0103

abbrev pub knowledge_subscribe_req : ℕ
knowledge_subscribe_req = 0x0104

abbrev pub knowledge_subscribe_ack : ℕ
knowledge_subscribe_ack = 0x0105

abbrev pub knowledge_update : ℕ
knowledge_update = 0x0106

abbrev pub knowledge_credit : ℕ
knowledge_credit = 0x0107

abbrev pub knowledge_unsubscribe : ℕ
knowledge_unsubscribe = 0x0108

abbrev pub knowledge_error : ℕ
knowledge_error = 0x0109

unfoldable pub knowledge_schemas : List (ℕ × List MemField)
knowledge_schemas =
    (
      knowledge_query_req,
      may 2 k_text
          ∷ may 3 k_text
          ∷ may 4 k_text
          ∷ may 5 k_text
          ∷ may 6 k_uint
          ∷ may 8 k_text
          ∷ may 9 k_bytes
          ∷ [],
    )
    ∷ (
      knowledge_query_result,
      must 2 k_array ∷ must 3 k_bool ∷ may 4 k_bytes ∷ may 5 k_uint ∷ may 6 k_bool ∷ [],
    )
    ∷ (knowledge_query_stream_data, must 2 k_array ∷ [])
    ∷ (knowledge_query_stream_end, may 2 k_array ∷ must 3 k_bool ∷ [])
    ∷ (
      knowledge_subscribe_req,
      may 2 k_text
          ∷ may 3 k_text
          ∷ may 4 k_text
          ∷ may 5 k_text
          ∷ may 7 k_text
          ∷ may 8 k_bool
          ∷ must 9 k_uint
          ∷ [],
    )
    ∷ (knowledge_subscribe_ack, must 2 k_bytes ∷ must 3 k_uint ∷ may 4 k_bool ∷ [])
    ∷ (knowledge_update, must 2 k_bytes ∷ must 3 k_uint ∷ may 4 k_array ∷ may 5 k_array ∷ [])
    ∷ (knowledge_credit, must 2 k_bytes ∷ must 3 k_uint ∷ may 4 k_uint ∷ [])
    ∷ (knowledge_unsubscribe, must 2 k_bytes ∷ [])
    ∷ (knowledge_error, must 2 k_uint ∷ must 3 k_text ∷ may 4 k_uint ∷ may 5 k_bytes ∷ [])
    ∷ []

abbrev pub is_absent : Option Value → Bool
is_absent none = true
is_absent (some v) = false

-- An update says what it adds or what it removes.
unfoldable pub check_update : ℕ → Entries → Result Malformed (Unit {0})
unfolding get
check_update ft m =
    fail_if (ft == knowledge_update && (is_absent (get 4 m) && is_absent (get 5 m))) empty_update

unfoldable pub validate_knowledge_payload : ℕ → List ℕ → Result Malformed Entries
unfolding find knowledge_schemas as_map get check_frame_kind check_corr check_fields check_update
validate_knowledge_payload ft payload = do
  schema ← known_schema (find ft knowledge_schemas)
  m ← as_map (decode_top payload)
  check_frame_kind ft (get 0 m)
  check_corr (get 1 m)
  check_fields m schema
  check_update ft m
  ok m

-- ===== src/Bodies/Memory.antt =====
-- The Memory bodies, impl/go/memory_bodies.go.
use npamp_protocol.Bodies.{MemField, must, may, k_uint, k_text, k_bytes, k_array, k_map, k_bool}
use npamp_protocol.Bodies.{
  Malformed, nil_record, known_schema, get, check_fields, as_map, check_frame_kind, check_corr,
}
use npamp_protocol.Cbor.{Entries}
use npamp_protocol.Cbor.Decoder.{decode_top}
use npamp_protocol.Prelude.{ℕ, List, [], ◌∷◌, Option, some, none}
use npamp_protocol.Prelude.{Result, ok, err, ◌>>=◌, ◌>>◌}
use npamp_protocol.Prelude.Maps.{find}

abbrev pub memory_create_req : ℕ
memory_create_req = 0x0100

abbrev pub memory_create_result : ℕ
memory_create_result = 0x0101

abbrev pub memory_read_req : ℕ
memory_read_req = 0x0102

abbrev pub memory_read_result : ℕ
memory_read_result = 0x0103

abbrev pub memory_update_req : ℕ
memory_update_req = 0x0104

abbrev pub memory_update_result : ℕ
memory_update_result = 0x0105

abbrev pub memory_delete_req : ℕ
memory_delete_req = 0x0106

abbrev pub memory_delete_result : ℕ
memory_delete_result = 0x0107

abbrev pub memory_retrieve_req : ℕ
memory_retrieve_req = 0x0108

abbrev pub memory_retrieve_result : ℕ
memory_retrieve_result = 0x0109

abbrev pub memory_retrieve_stream_data : ℕ
memory_retrieve_stream_data = 0x010a

abbrev pub memory_retrieve_stream_end : ℕ
memory_retrieve_stream_end = 0x010b

abbrev pub memory_status_req : ℕ
memory_status_req = 0x010c

abbrev pub memory_status_result : ℕ
memory_status_result = 0x010d

abbrev pub memory_error : ℕ
memory_error = 0x010e

abbrev pub memory_evict : ℕ
memory_evict = 0x0035

abbrev pub memory_revive : ℕ
memory_revive = 0x0036

unfoldable pub memory_schemas : List (ℕ × List MemField)
memory_schemas =
    (
      memory_create_req,
      must 2 k_text
          ∷ may 3 k_text
          ∷ may 4 k_text
          ∷ may 5 k_text
          ∷ may 6 k_text
          ∷ may 7 k_text
          ∷ may 8 k_text
          ∷ may 9 k_text
          ∷ may 10 k_map
          ∷ must 11 k_uint
          ∷ [],
    )
    ∷ (memory_create_result, must 2 k_text ∷ must 3 k_text ∷ [])
    ∷ (memory_read_req, must 2 k_text ∷ must 3 k_uint ∷ [])
    ∷ (memory_read_result, must 2 k_map ∷ [])
    ∷ (
      memory_update_req,
      must 2 k_text
          ∷ may 3 k_text
          ∷ may 4 k_text
          ∷ may 5 k_text
          ∷ may 6 k_text
          ∷ may 7 k_text
          ∷ may 8 k_text
          ∷ may 9 k_map
          ∷ must 10 k_uint
          ∷ [],
    )
    ∷ (memory_update_result, must 2 k_text ∷ must 3 k_text ∷ [])
    ∷ (memory_delete_req, must 2 k_text ∷ must 3 k_uint ∷ [])
    ∷ (memory_delete_result, must 2 k_text ∷ must 3 k_text ∷ [])
    ∷ (
      memory_retrieve_req,
      may 2 k_text
          ∷ may 3 k_text
          ∷ may 4 k_text
          ∷ may 5 k_text
          ∷ may 6 k_text
          ∷ may 7 k_uint
          ∷ may 8 k_text
          ∷ may 9 k_bytes
          ∷ must 10 k_uint
          ∷ [],
    )
    ∷ (
      memory_retrieve_result,
      must 2 k_array ∷ must 3 k_bool ∷ may 4 k_bytes ∷ may 5 k_uint ∷ may 6 k_bool ∷ [],
    )
    ∷ (memory_retrieve_stream_data, must 2 k_array ∷ [])
    ∷ (memory_retrieve_stream_end, may 2 k_array ∷ must 3 k_bool ∷ [])
    ∷ (memory_status_req, [])
    ∷ (memory_status_result, must 2 k_text ∷ may 3 k_text ∷ may 4 k_uint ∷ may 5 k_map ∷ [])
    ∷ (memory_error, must 2 k_uint ∷ must 3 k_text ∷ may 4 k_uint ∷ may 5 k_text ∷ [])
    ∷ (memory_evict, must 2 k_text ∷ may 3 k_text ∷ must 4 k_uint ∷ [])
    ∷ (memory_revive, must 2 k_text ∷ must 3 k_uint ∷ [])
    ∷ []

unfoldable pub validate_memory_payload : ℕ → List ℕ → Result Malformed Entries
unfolding find memory_schemas as_map get check_frame_kind check_corr check_fields
validate_memory_payload ft payload = do
  schema ← known_schema (find ft memory_schemas)
  m ← as_map (decode_top payload)
  check_frame_kind ft (get 0 m)
  check_corr (get 1 m)
  check_fields m schema
  ok m

unfoldable pub memory_record_schema : List MemField
memory_record_schema =
    must 0 k_text
    ∷ must 1 k_text
    ∷ may 2 k_text
    ∷ may 3 k_text
    ∷ may 4 k_text
    ∷ may 5 k_text
    ∷ may 6 k_text
    ∷ may 7 k_text
    ∷ may 8 k_text
    ∷ may 9 k_text
    ∷ may 10 k_text
    ∷ may 11 k_text
    ∷ may 12 k_text
    ∷ may 13 k_text
    ∷ may 14 k_text
    ∷ []

-- A nil map is `none`.
unfoldable pub validate_memory_record : Option Entries → Result Malformed (Unit {0})
unfolding memory_record_schema check_fields
validate_memory_record none = err nil_record
validate_memory_record (some rec) = check_fields rec memory_record_schema

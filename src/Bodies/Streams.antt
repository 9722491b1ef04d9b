-- ===== src/Bodies/Streams.antt =====
-- The Streams bodies, impl/go/stream_bodies.go.
use npamp_protocol.Bodies.{MemField, must, may, k_uint, k_text, k_bytes}
use npamp_protocol.Bodies.{
  Malformed, missing_sub_stream_id, bad_sub_stream_id, known_schema, get, check_fields, as_map,
  check_frame_kind,
}
use npamp_protocol.Cbor.{Entries, Value, uint64}
use npamp_protocol.Cbor.Decoder.{decode_top}
use npamp_protocol.Prelude.{ℕ, List, [], ◌∷◌, Option, some, none}
use npamp_protocol.Prelude.{Result, ok, err, ◌>>=◌, ◌>>◌}
use npamp_protocol.Prelude.Maps.{find}

abbrev pub stream_open : ℕ
stream_open = 0x0100

abbrev pub stream_data : ℕ
stream_data = 0x0101

abbrev pub stream_close : ℕ
stream_close = 0x0102

abbrev pub stream_reset : ℕ
stream_reset = 0x0103

abbrev pub stream_window_update : ℕ
stream_window_update = 0x0104

unfoldable pub stream_schemas : List (ℕ × List MemField)
stream_schemas =
    (stream_open, must 2 k_uint ∷ must 3 k_uint ∷ may 4 k_text ∷ may 5 k_uint ∷ [])
    ∷ (stream_data, must 2 k_uint ∷ must 3 k_bytes ∷ may 4 k_uint ∷ [])
    ∷ (stream_close, must 2 k_uint ∷ [])
    ∷ (stream_reset, must 2 k_uint ∷ must 3 k_uint ∷ [])
    ∷ (stream_window_update, must 2 k_uint ∷ [])
    ∷ []

-- sub_stream_id (1)
unfoldable pub check_sub_stream_id : Option Value → Result Malformed (Unit {0})
check_sub_stream_id none = err missing_sub_stream_id
check_sub_stream_id (some (uint64 n)) = ok tt
check_sub_stream_id (some v) = err bad_sub_stream_id

unfoldable pub validate_stream_payload : ℕ → List ℕ → Result Malformed Entries
unfolding find stream_schemas as_map get check_frame_kind check_sub_stream_id check_fields
validate_stream_payload ft payload = do
  schema ← known_schema (find ft stream_schemas)
  m ← as_map (decode_top payload)
  check_frame_kind ft (get 0 m)
  check_sub_stream_id (get 1 m)
  check_fields m schema
  ok m

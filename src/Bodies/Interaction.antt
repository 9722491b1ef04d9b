-- ===== src/Bodies/Interaction.antt =====
-- The Interaction bodies, impl/go/interaction_bodies.go.
use npamp_protocol.Bodies.{MemField, must, may, k_uint, k_text, k_array, k_map, k_bool}
use npamp_protocol.Bodies.{
  Malformed, known_schema, get, check_fields, as_map, check_frame_kind, check_corr,
}
use npamp_protocol.Cbor.{Entries}
use npamp_protocol.Cbor.Decoder.{decode_top}
use npamp_protocol.Prelude.{ℕ, List, [], ◌∷◌}
use npamp_protocol.Prelude.{Result, ok, ◌>>=◌, ◌>>◌}
use npamp_protocol.Prelude.Maps.{find}

abbrev pub interact_event : ℕ
interact_event = 0x0100

abbrev pub interact_event_ack : ℕ
interact_event_ack = 0x0101

abbrev pub interact_prompt_req : ℕ
interact_prompt_req = 0x0102

abbrev pub interact_prompt_result : ℕ
interact_prompt_result = 0x0103

abbrev pub interact_approval_req : ℕ
interact_approval_req = 0x0104

abbrev pub interact_approval_result : ℕ
interact_approval_result = 0x0105

abbrev pub interact_cancel : ℕ
interact_cancel = 0x0106

abbrev pub interact_error : ℕ
interact_error = 0x0107

unfoldable pub interaction_schemas : List (ℕ × List MemField)
interaction_schemas =
    (interact_event, must 2 k_uint ∷ may 3 k_text ∷ may 4 k_map ∷ may 5 k_bool ∷ [])
    ∷ (interact_event_ack, [])
    ∷ (
      interact_prompt_req,
      must 2 k_uint ∷ must 3 k_text ∷ may 4 k_array ∷ may 5 k_map ∷ may 6 k_uint ∷ [],
    )
    ∷ (interact_prompt_result, must 2 k_uint ∷ [])
    ∷ (interact_approval_req, must 2 k_text ∷ may 3 k_uint ∷ may 4 k_map ∷ may 5 k_uint ∷ [])
    ∷ (interact_approval_result, must 2 k_uint ∷ may 3 k_text ∷ [])
    ∷ (interact_cancel, may 2 k_uint ∷ [])
    ∷ (interact_error, must 2 k_uint ∷ must 3 k_text ∷ may 4 k_uint ∷ may 5 k_text ∷ [])
    ∷ []

unfoldable pub validate_interaction_payload : ℕ → List ℕ → Result Malformed Entries
unfolding find interaction_schemas as_map get check_frame_kind check_corr check_fields
validate_interaction_payload ft payload = do
  schema ← known_schema (find ft interaction_schemas)
  m ← as_map (decode_top payload)
  check_frame_kind ft (get 0 m)
  check_corr (get 1 m)
  check_fields m schema
  ok m

-- ===== src/Bodies/Workflow.antt =====
-- The Workflow bodies, impl/go/workflow_bodies.go.
use npamp_protocol.Bodies.{MemField, must, may, k_uint, k_text, k_bytes, k_map}
use npamp_protocol.Bodies.{
  Malformed, known_schema, get, check_fields, as_map, check_frame_kind, check_corr,
}
use npamp_protocol.Cbor.{Entries, Value}
use npamp_protocol.Cbor.Decoder.{decode_top}
use npamp_protocol.Prelude.{ℕ, List, [], ◌∷◌, Option, Bool, true, false, ◌==◌, ◌&&◌, not}
use npamp_protocol.Prelude.{Result, ok, ◌>>=◌, ◌>>◌}
use npamp_protocol.Prelude.Maps.{find}

abbrev pub workflow_submit_req : ℕ
workflow_submit_req = 0x0100

abbrev pub workflow_submit_result : ℕ
workflow_submit_result = 0x0101

abbrev pub workflow_status_req : ℕ
workflow_status_req = 0x0102

abbrev pub workflow_status_result : ℕ
workflow_status_result = 0x0103

abbrev pub workflow_cancel_req : ℕ
workflow_cancel_req = 0x0104

abbrev pub workflow_cancel_result : ℕ
workflow_cancel_result = 0x0105

abbrev pub workflow_step_event : ℕ
workflow_step_event = 0x0106

abbrev pub workflow_complete : ℕ
workflow_complete = 0x0107

abbrev pub workflow_error : ℕ
workflow_error = 0x0108

unfoldable pub workflow_schemas : List (ℕ × List MemField)
workflow_schemas =
    (
      workflow_submit_req,
      must 2 k_text
          ∷ may 3 k_bytes
          ∷ may 4 k_map
          ∷ may 5 k_uint
          ∷ may 6 k_text
          ∷ may 7 k_text
          ∷ may 8 k_text
          ∷ may 9 k_text
          ∷ may 10 k_map
          ∷ must 11 k_uint
          ∷ [],
    )
    ∷ (workflow_submit_result, must 2 k_text ∷ must 3 k_uint ∷ [])
    ∷ (workflow_status_req, must 2 k_text ∷ [])
    ∷ (
      workflow_status_result,
      must 2 k_text
          ∷ must 3 k_uint
          ∷ may 4 k_uint
          ∷ may 5 k_text
          ∷ may 6 k_uint
          ∷ may 7 k_text
          ∷ [],
    )
    ∷ (workflow_cancel_req, must 2 k_text ∷ may 3 k_text ∷ [])
    ∷ (workflow_cancel_result, must 2 k_text ∷ must 3 k_uint ∷ [])
    ∷ (
      workflow_step_event,
      must 2 k_text
          ∷ must 3 k_uint
          ∷ must 4 k_uint
          ∷ may 5 k_uint
          ∷ may 6 k_text
          ∷ may 7 k_uint
          ∷ may 8 k_bytes
          ∷ may 9 k_text
          ∷ [],
    )
    ∷ (
      workflow_complete,
      must 2 k_text
          ∷ must 3 k_uint
          ∷ must 4 k_uint
          ∷ may 5 k_bytes
          ∷ may 6 k_uint
          ∷ may 7 k_text
          ∷ [],
    )
    ∷ (workflow_error, must 2 k_uint ∷ must 3 k_text ∷ may 4 k_uint ∷ may 5 k_text ∷ [])
    ∷ []

-- workflowFrameHasCorr
unfoldable pub workflow_frame_has_corr : ℕ → Bool
workflow_frame_has_corr ft = not (ft == workflow_step_event) && not (ft == workflow_complete)

abbrev pub check_corr_if : Bool → Option Value → Result Malformed (Unit {0})
check_corr_if true corr = check_corr corr
check_corr_if false corr = ok tt

unfoldable pub validate_workflow_payload : ℕ → List ℕ → Result Malformed Entries
unfolding find workflow_schemas as_map get check_frame_kind check_corr workflow_frame_has_corr
    check_fields
validate_workflow_payload ft payload = do
  schema ← known_schema (find ft workflow_schemas)
  m ← as_map (decode_top payload)
  check_frame_kind ft (get 0 m)
  check_corr_if (workflow_frame_has_corr ft) (get 1 m)
  check_fields m schema
  ok m

-- ===== src/Bodies/Telemetry.antt =====
-- The Telemetry bodies, impl/go/telemetry_bodies.go.
use npamp_protocol.Bodies.{
  Malformed, unknown_frame_type, missing_corr, missing_field, wrong_type, missing_batch_seq,
  bad_batch_seq,
}
use npamp_protocol.Bodies.{
  bad_sub_id, missing_sub_id, stray_sub_id, not_an_array, element_not_a_map, no_content,
}
use npamp_protocol.Bodies.{get, check_keys, as_map, check_frame_kind, check_corr}
use npamp_protocol.Cbor.{
  Value, uint64, int64, bytes, text, array, cbor_map, Entries, Items, no_item, item,
}
use npamp_protocol.Cbor.Decoder.{decode_top}
use npamp_protocol.Prelude.{ℕ, ◌+◌, List, [], ◌∷◌, Option, some, none}
use npamp_protocol.Prelude.{Bool, true, false, ◌==◌, ◌&&◌, leb, not, if◌then◌else◌}
use npamp_protocol.Prelude.{Result, ok, err, ◌>>=◌, ◌>>◌, fail_if}
use npamp_protocol.Prelude.Maps.{find}

abbrev pub telemetry_report : ℕ
telemetry_report = 0x0100

abbrev pub telemetry_error : ℕ
telemetry_error = 0x0105

unfoldable pub is_telemetry_frame : ℕ → Bool
is_telemetry_frame ft = leb telemetry_report ft && leb ft telemetry_error

abbrev pub tel_is_uint : Value → Bool
tel_is_uint (uint64 n) = true
tel_is_uint v = false

abbrev pub tel_is_text : Value → Bool
tel_is_text (text s) = true
tel_is_text v = false

abbrev pub tel_is_bytes : Value → Bool
tel_is_bytes (bytes b) = true
tel_is_bytes v = false

abbrev pub tel_is_array : Value → Bool
tel_is_array (array vs) = true
tel_is_array v = false

abbrev pub tel_is_map : Value → Bool
tel_is_map (cbor_map m) = true
tel_is_map v = false

abbrev pub tel_is_number : Value → Bool
tel_is_number (uint64 n) = true
tel_is_number (int64 z) = true
tel_is_number v = false

pub record TelField : Type 0 where
  pub key : ℕ
  pub matches : Value → Bool
  pub required : Bool

abbrev must : ℕ → (Value → Bool) → TelField
must key p = record { key = key; matches = p; required = true }

abbrev may : ℕ → (Value → Bool) → TelField
may key p = record { key = key; matches = p; required = false }

-- A frame type that is no key of the map has the nil schema.
unfoldable pub telemetry_schemas : List (ℕ × List TelField)
telemetry_schemas =
    (
      0x0101,
      may 2 tel_is_array
          ∷ may 3 tel_is_array
          ∷ may 4 tel_is_array
          ∷ may 5 tel_is_uint
          ∷ may 6 tel_is_uint
          ∷ must 7 tel_is_uint
          ∷ [],
    )
    ∷ (0x0102, must 2 tel_is_bytes ∷ must 3 tel_is_uint ∷ may 4 tel_is_array ∷ [])
    ∷ (0x0103, must 2 tel_is_bytes ∷ [])
    ∷ (0x0104, must 2 tel_is_bytes ∷ must 3 tel_is_uint ∷ may 4 tel_is_uint ∷ [])
    ∷ (0x0105, must 2 tel_is_uint ∷ may 3 tel_is_text ∷ may 4 tel_is_bytes ∷ [])
    ∷ []

unfoldable pub metric_schema : List TelField
metric_schema =
    must 0 tel_is_text
    ∷ must 1 tel_is_uint
    ∷ must 2 tel_is_uint
    ∷ must 3 tel_is_number
    ∷ may 4 tel_is_text
    ∷ may 5 tel_is_map
    ∷ may 6 tel_is_uint
    ∷ []

unfoldable pub event_schema : List TelField
event_schema =
    must 0 tel_is_text
    ∷ must 1 tel_is_uint
    ∷ may 2 tel_is_uint
    ∷ may 3 tel_is_map
    ∷ may 4 tel_is_text
    ∷ may 5 tel_is_uint
    ∷ []

unfoldable pub health_schema : List TelField
health_schema =
    must 0 tel_is_text
    ∷ must 1 tel_is_uint
    ∷ must 2 tel_is_uint
    ∷ may 3 tel_is_text
    ∷ may 4 tel_is_map
    ∷ []

unfoldable pub check_telemetry_field : Option Value → TelField → Result Malformed (Unit {0})
check_telemetry_field none f = fail_if f.required (missing_field f.key)
check_telemetry_field (some val) f = fail_if (not (f.matches val)) (wrong_type f.key)

unfoldable pub check_telemetry_schema : Entries → List TelField → Result Malformed (Unit {0})
unfolding check_telemetry_field get
check_telemetry_schema m [] = ok tt
check_telemetry_schema m (f ∷ fs) =
    check_telemetry_field (get f.key m) f >> check_telemetry_schema m fs

-- checkTelemetryFields, with telemetryForwardCompat.
unfoldable pub check_telemetry_fields : Entries → List TelField → Result Malformed (Unit {0})
unfolding check_telemetry_schema check_keys
check_telemetry_fields m schema = check_telemetry_schema m schema >> check_keys m

-- checkTelemetryCorr
unfoldable pub check_telemetry_corr : Option Value → Bool → Result Malformed (Unit {0})
unfolding check_corr
check_telemetry_corr none required = fail_if required missing_corr
check_telemetry_corr (some corr) required = check_corr (some corr)

-- The corr and the sub_id of a report.
unfoldable pub check_subscription : Option Value → Option Value → Result Malformed (Unit {0})
unfolding check_corr
check_subscription (some corr) none = check_corr (some corr) >> err missing_sub_id
check_subscription (some corr) (some sub) =
    check_corr (some corr) >> fail_if (not (tel_is_bytes sub)) bad_sub_id
check_subscription none none = ok tt
check_subscription none (some sub) = err stray_sub_id

unfoldable pub check_batch_seq : Option Value → Result Malformed (Unit {0})
check_batch_seq none = err missing_batch_seq
check_batch_seq (some bs) = fail_if (not (tel_is_uint bs)) bad_batch_seq

unfoldable pub check_elements : List TelField → Items → Result Malformed (Unit {0})
unfolding check_telemetry_fields
check_elements schema no_item = ok tt
check_elements schema (item (cbor_map em) els) =
    check_telemetry_fields em schema >> check_elements schema els
check_elements schema (item v els) = err element_not_a_map

-- One content array; the result is what it adds to nonEmpty.
unfoldable pub check_content : List TelField → Option Value → Result Malformed ℕ
unfolding check_elements
check_content schema none = ok 0
check_content schema (some (array no_item)) = ok 0
check_content schema (some (array (item v els))) = check_elements schema (item v els) >> ok 1
check_content schema (some v) = err not_an_array

unfoldable pub validate_telemetry_report : Entries → Result Malformed Entries
unfolding check_subscription get check_batch_seq check_content check_keys metric_schema event_schema
    health_schema
validate_telemetry_report m = do
  check_subscription (get 1 m) (get 2 m)
  check_batch_seq (get 3 m)
  metrics ← check_content metric_schema (get 4 m)
  events ← check_content event_schema (get 5 m)
  health ← check_content health_schema (get 6 m)
  fail_if ((metrics + events) + health == 0) no_content
  check_keys m
  ok m

abbrev pub schema_or_nil : Option (List TelField) → List TelField
schema_or_nil none = []
schema_or_nil (some schema) = schema

unfoldable pub validate_telemetry_body : ℕ → Entries → Result Malformed Entries
unfolding validate_telemetry_report check_telemetry_corr check_telemetry_fields telemetry_schemas
    find
validate_telemetry_body ft m = if ft == telemetry_report then validate_telemetry_report m else (do
  check_telemetry_corr (get 1 m) true
  check_telemetry_fields m (schema_or_nil (find ft telemetry_schemas))
  ok m)

unfoldable pub validate_telemetry_payload : ℕ → List ℕ → Result Malformed Entries
unfolding is_telemetry_frame as_map get check_frame_kind validate_telemetry_body
validate_telemetry_payload ft payload = do
  fail_if (not (is_telemetry_frame ft)) unknown_frame_type
  m ← as_map (decode_top payload)
  check_frame_kind ft (get 0 m)
  validate_telemetry_body ft m

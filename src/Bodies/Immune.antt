-- ===== src/Bodies/Immune.antt =====
-- The Immune bodies, impl/go/immune_bodies.go.
use npamp_protocol.Bodies.{MemField, must, may, k_uint, k_text, k_bytes, k_array, k_bool}
use npamp_protocol.Bodies.{
  Malformed, not_an_array, element_not_a_map, missing_field, known_schema, get, check_fields,
  as_map, check_frame_kind, check_corr,
}
use npamp_protocol.Cbor.{Entries, Value, Items, no_item, item, array, cbor_map}
use npamp_protocol.Cbor.Decoder.{decode_top}
use npamp_protocol.Prelude.{ℕ, List, [], ◌∷◌, Option, some, none}
use npamp_protocol.Prelude.{◌==◌, if◌then◌else◌}
use npamp_protocol.Prelude.{Result, ok, err, ◌>>=◌, ◌>>◌}
use npamp_protocol.Prelude.Maps.{find}

abbrev pub immune_report_req : ℕ
immune_report_req = 0x0100

abbrev pub immune_report_result : ℕ
immune_report_result = 0x0101

abbrev pub immune_error : ℕ
immune_error = 0x0102

abbrev pub immune_gossip_advertise : ℕ
immune_gossip_advertise = 0x00c0

abbrev pub immune_gossip_ack : ℕ
immune_gossip_ack = 0x00c1

abbrev pub immune_gossip_pull_req : ℕ
immune_gossip_pull_req = 0x00c2

abbrev pub immune_gossip_pull_result : ℕ
immune_gossip_pull_result = 0x00c3

abbrev pub immune_gossip_retract : ℕ
immune_gossip_retract = 0x00c4

unfoldable pub immune_schemas : List (ℕ × List MemField)
immune_schemas =
    (
      immune_report_req,
      must 2 k_text
          ∷ must 3 k_uint
          ∷ must 4 k_uint
          ∷ may 5 k_text
          ∷ may 6 k_text
          ∷ may 7 k_text
          ∷ may 8 k_bytes
          ∷ may 9 k_uint
          ∷ may 10 k_text
          ∷ [],
    )
    ∷ (immune_report_result, must 2 k_uint ∷ may 3 k_text ∷ [])
    ∷ (immune_error, must 2 k_uint ∷ must 3 k_text ∷ may 4 k_uint ∷ [])
    ∷ (immune_gossip_advertise, must 2 k_array ∷ may 3 k_bool ∷ [])
    ∷ (immune_gossip_ack, may 2 k_array ∷ may 3 k_array ∷ may 4 k_uint ∷ [])
    ∷ (immune_gossip_pull_req, must 2 k_array ∷ [])
    ∷ (immune_gossip_pull_result, must 2 k_array ∷ [])
    ∷ (immune_gossip_retract, must 2 k_bytes ∷ must 3 k_uint ∷ may 4 k_uint ∷ [])
    ∷ []

unfoldable pub gossip_descriptor_schema : List MemField
gossip_descriptor_schema =
    must 0 k_bytes
    ∷ must 1 k_uint
    ∷ may 2 k_uint
    ∷ may 3 k_uint
    ∷ may 4 k_bytes
    ∷ may 5 k_text
    ∷ may 6 k_text
    ∷ may 7 k_uint
    ∷ may 8 k_bytes
    ∷ may 9 k_bytes
    ∷ []

unfoldable pub gossip_item_schema : List MemField
gossip_item_schema =
    must 0 k_bytes
    ∷ must 1 k_uint
    ∷ may 2 k_uint
    ∷ may 3 k_uint
    ∷ may 4 k_bytes
    ∷ may 5 k_text
    ∷ may 6 k_text
    ∷ may 7 k_uint
    ∷ must 8 k_bytes
    ∷ []

-- The loop over the elements of items.
unfoldable pub check_gossip : Items → List MemField → Result Malformed (Unit {0})
unfolding check_fields
check_gossip no_item nested = ok tt
check_gossip (item (cbor_map m) vs) nested = check_fields m nested >> check_gossip vs nested
check_gossip (item v vs) nested = err element_not_a_map

abbrev pub gossip_items : Option Value → List MemField → Result Malformed (Unit {0})
gossip_items none nested = err (missing_field 2)
gossip_items (some (array vs)) nested = check_gossip vs nested
gossip_items (some v) nested = err not_an_array

-- validateGossipArray
unfoldable pub validate_gossip_array : Entries → List MemField → Result Malformed (Unit {0})
unfolding get check_gossip
validate_gossip_array m nested = gossip_items (get 2 m) nested

-- The switch on the frame type.
unfoldable pub check_nested : ℕ → Entries → Result Malformed (Unit {0})
unfolding validate_gossip_array gossip_descriptor_schema gossip_item_schema
check_nested ft m =
    if ft == immune_gossip_advertise
    then validate_gossip_array m gossip_descriptor_schema
    else if ft == immune_gossip_pull_result
    then validate_gossip_array m gossip_item_schema
    else ok tt

unfoldable pub validate_immune_payload : ℕ → List ℕ → Result Malformed Entries
unfolding find immune_schemas as_map get check_frame_kind check_corr check_fields check_nested
validate_immune_payload ft payload = do
  schema ← known_schema (find ft immune_schemas)
  m ← as_map (decode_top payload)
  check_frame_kind ft (get 0 m)
  check_corr (get 1 m)
  check_fields m schema
  check_nested ft m
  ok m

-- ===== src/Bodies/Commerce.antt =====
-- The Commerce bodies, impl/go/commerce_bodies.go.
use npamp_protocol.Bodies.{MemField, must, may, k_uint, k_text, k_bytes, k_map, k_array}
use npamp_protocol.Bodies.{
  Malformed, check_keys, element_not_a_map, missing_field, wrong_type, party_not_text,
  unnamed_party, known_schema, get, check_fields, as_map, check_frame_kind, check_corr,
}
use npamp_protocol.Cbor.{Entries, Value, Items, no_item, item, uint64, int64, text, array, cbor_map}
use npamp_protocol.Cbor.Decoder.{decode_top}
use npamp_protocol.Prelude.{ℕ, List, [], ◌∷◌, Option, some, none}
use npamp_protocol.Prelude.{Bool, false, not, bytes_eq, ◌==◌, ◌||◌, if◌then◌else◌, fail_if}
use npamp_protocol.Prelude.{Result, ok, err, ◌>>=◌, ◌>>◌}
use npamp_protocol.Prelude.Maps.{find}

abbrev pub commerce_mandate_create_req : ℕ
commerce_mandate_create_req = 0x0100

abbrev pub commerce_mandate_create_result : ℕ
commerce_mandate_create_result = 0x0101

abbrev pub commerce_mandate_read_req : ℕ
commerce_mandate_read_req = 0x0102

abbrev pub commerce_mandate_read_result : ℕ
commerce_mandate_read_result = 0x0103

abbrev pub commerce_mandate_revoke_req : ℕ
commerce_mandate_revoke_req = 0x0104

abbrev pub commerce_mandate_revoke_result : ℕ
commerce_mandate_revoke_result = 0x0105

abbrev pub commerce_mandate_status_req : ℕ
commerce_mandate_status_req = 0x0106

abbrev pub commerce_mandate_status_result : ℕ
commerce_mandate_status_result = 0x0107

abbrev pub commerce_intent_propose_req : ℕ
commerce_intent_propose_req = 0x0108

abbrev pub commerce_intent_propose_result : ℕ
commerce_intent_propose_result = 0x0109

abbrev pub commerce_intent_respond_req : ℕ
commerce_intent_respond_req = 0x010a

abbrev pub commerce_intent_respond_result : ℕ
commerce_intent_respond_result = 0x010b

abbrev pub commerce_intent_status_req : ℕ
commerce_intent_status_req = 0x010c

abbrev pub commerce_intent_status_result : ℕ
commerce_intent_status_result = 0x010d

abbrev pub commerce_error : ℕ
commerce_error = 0x010e

unfoldable pub commerce_schemas : List (ℕ × List MemField)
commerce_schemas =
    (
      commerce_mandate_create_req,
      must 2 k_text
          ∷ must 3 k_text
          ∷ must 4 k_map
          ∷ may 5 k_text
          ∷ may 6 k_text
          ∷ may 7 k_text
          ∷ may 8 k_map
          ∷ may 9 k_text
          ∷ may 10 k_bytes
          ∷ may 11 k_text
          ∷ may 12 k_text
          ∷ must 13 k_uint
          ∷ [],
    )
    ∷ (commerce_mandate_create_result, must 2 k_text ∷ must 3 k_text ∷ [])
    ∷ (commerce_mandate_read_req, must 2 k_text ∷ must 3 k_uint ∷ [])
    ∷ (commerce_mandate_read_result, must 2 k_map ∷ [])
    ∷ (commerce_mandate_revoke_req, must 2 k_text ∷ may 3 k_text ∷ must 4 k_uint ∷ [])
    ∷ (commerce_mandate_revoke_result, must 2 k_text ∷ must 3 k_text ∷ [])
    ∷ (commerce_mandate_status_req, must 2 k_text ∷ must 3 k_uint ∷ [])
    ∷ (commerce_mandate_status_result, must 2 k_text ∷ must 3 k_text ∷ may 4 k_text ∷ [])
    ∷ (
      commerce_intent_propose_req,
      must 2 k_array
          ∷ must 3 k_array
          ∷ may 4 k_text
          ∷ may 5 k_map
          ∷ may 6 k_text
          ∷ must 7 k_uint
          ∷ [],
    )
    ∷ (commerce_intent_propose_result, must 2 k_text ∷ must 3 k_text ∷ [])
    ∷ (
      commerce_intent_respond_req,
      must 2 k_text ∷ must 3 k_uint ∷ may 4 k_array ∷ may 5 k_text ∷ must 6 k_uint ∷ [],
    )
    ∷ (commerce_intent_respond_result, must 2 k_text ∷ must 3 k_text ∷ [])
    ∷ (commerce_intent_status_req, must 2 k_text ∷ must 3 k_uint ∷ [])
    ∷ (
      commerce_intent_status_result,
      must 2 k_text ∷ must 3 k_text ∷ may 4 k_array ∷ may 5 k_array ∷ [],
    )
    ∷ (commerce_error, must 2 k_uint ∷ must 3 k_text ∷ may 4 k_uint ∷ may 5 k_text ∷ [])
    ∷ []

-- commerceForwardCompatKeys is the loop that checkFields ends with.
abbrev pub as_nested : Value → Result Malformed Entries
as_nested (cbor_map m) = ok m
as_nested v = err element_not_a_map

unfoldable pub check_units : Option Value → Result Malformed (Unit {0})
check_units none = err (missing_field 0)
check_units (some (uint64 n)) = ok tt
check_units (some (int64 n)) = ok tt
check_units (some v) = err (wrong_type 0)

unfoldable pub check_scale : Option Value → Result Malformed (Unit {0})
check_scale none = err (missing_field 1)
check_scale (some (uint64 n)) = ok tt
check_scale (some v) = err (wrong_type 1)

-- A required text, and its octets.
unfoldable pub text_at : ℕ → Option Value → Result Malformed (List ℕ)
text_at key none = err (missing_field key)
text_at key (some (text s)) = ok s
text_at key (some v) = err (wrong_type key)

-- validateCommerceAmount
unfoldable pub validate_commerce_amount : Value → Result Malformed (Unit {0})
unfolding get check_units check_scale text_at check_keys
validate_commerce_amount v = do
  m ← as_nested v
  check_units (get 0 m)
  check_scale (get 1 m)
  currency ← text_at 2 (get 2 m)
  check_keys m

-- The set of the parties is the list of their names.
unfoldable pub is_party : List ℕ → List (List ℕ) → Bool
is_party name [] = false
is_party name (p ∷ parties) = bytes_eq p name || is_party name parties

-- commerceParties, on the elements of the array
unfoldable pub parties_in : Items → Result Malformed (List (List ℕ))
parties_in no_item = ok []
parties_in (item (text s) vs) = do parties ← parties_in vs; ok (s ∷ parties)
parties_in (item v vs) = err party_not_text

-- The elements of an array; a value that is none has no element.
abbrev pub elements : Option Value → Items
elements none = no_item
elements (some (array vs)) = vs
elements (some v) = no_item

unfoldable pub commerce_parties : Entries → Result Malformed (List (List ℕ))
unfolding get parties_in
commerce_parties m = parties_in (elements (get 2 m))

abbrev pub required : ℕ → Option Value → Result Malformed Value
required key none = err (missing_field key)
required key (some v) = ok v

-- validateCommerceLeg
unfoldable pub validate_commerce_leg : Value → List (List ℕ) → Result Malformed (Unit {0})
unfolding get text_at validate_commerce_amount is_party check_keys
validate_commerce_leg v parties = do
  m ← as_nested v
  from ← text_at 0 (get 0 m)
  to ← text_at 1 (get 1 m)
  amount ← required 2 (get 2 m)
  validate_commerce_amount amount
  fail_if (not (is_party from parties)) unnamed_party
  fail_if (not (is_party to parties)) unnamed_party
  check_keys m

unfoldable pub check_legs : Items → List (List ℕ) → Result Malformed (Unit {0})
unfolding validate_commerce_leg
check_legs no_item parties = ok tt
check_legs (item leg legs) parties = validate_commerce_leg leg parties >> check_legs legs parties

abbrev pub check_amount : Option Value → Result Malformed (Unit {0})
check_amount none = ok tt
check_amount (some v) = validate_commerce_amount v

-- validateCommerceNested
unfoldable pub validate_commerce_nested : ℕ → Entries → Result Malformed (Unit {0})
unfolding get validate_commerce_amount commerce_parties check_legs
validate_commerce_nested ft m =
    if ft == commerce_mandate_create_req
    then check_amount (get 4 m)
    else if ft == commerce_intent_propose_req
    then (do parties ← commerce_parties m; check_legs (elements (get 3 m)) parties)
    else ok tt

unfoldable pub validate_commerce_payload : ℕ → List ℕ → Result Malformed Entries
unfolding find commerce_schemas as_map get check_frame_kind check_corr check_fields
    validate_commerce_nested
validate_commerce_payload ft payload = do
  schema ← known_schema (find ft commerce_schemas)
  m ← as_map (decode_top payload)
  check_frame_kind ft (get 0 m)
  check_corr (get 1 m)
  check_fields m schema
  validate_commerce_nested ft m
  ok m

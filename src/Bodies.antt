-- ===== src/Bodies.antt =====
-- What the validators of operation bodies share (impl/go/memory_bodies.go, with the accessors of
-- cborMap in impl/go/memory_cbor.go). An error's reason is kept; its sentinel and text are not.
pub mod Memory
pub mod Settlement
pub mod Workflow
pub mod Telemetry
pub mod Interaction
pub mod Knowledge
pub mod Capability
pub mod Immune
pub mod Streams
pub mod Commerce
pub mod Accepted
pub mod Payload
pub mod Amounts
pub mod Proposals
use npamp_protocol.Cbor.{
  Value, uint64, int, int64, bytes, text, array, cbor_map, umap, bool, nil, encode,
}
use npamp_protocol.Cbor.{Entries, no_entry, entry}
use npamp_protocol.Cbor.Decoder.{CborError, decode_top}
use npamp_protocol.Prelude.{ℕ, List, [], ◌∷◌, length, Option, none, some, bytes_eq}
use npamp_protocol.Prelude.{Bool, true, false, not, ltb, ◌==◌, ◌||◌, if◌then◌else◌}
use npamp_protocol.Prelude.{Result, ok, err, ◌>>=◌, ◌>>◌, fail_if}
use npamp_protocol.Prelude.Int.{pos, negsuc}

-- cborMap.get
unfoldable pub get : ℕ → Entries → Option Value
get key no_entry = none
get key (entry k key' val es) = if bytes_eq k (encode (uint64 key)) then some val else get key es

pub data CborKind : Type 0 where
  k_uint k_text k_bytes k_array k_map k_bool : CborKind

pub record MemField : Type 0 where
  pub key : ℕ
  pub kind : CborKind
  pub required : Bool

abbrev pub must : ℕ → CborKind → MemField
must key kind = record { key = key; kind = kind; required = true }

abbrev pub may : ℕ → CborKind → MemField
may key kind = record { key = key; kind = kind; required = false }

unfoldable pub matches_kind : Value → CborKind → Bool
matches_kind (uint64 n) k_uint = true
matches_kind (text s) k_text = true
matches_kind (bytes b) k_bytes = true
matches_kind (array vs) k_array = true
matches_kind (cbor_map m) k_map = true
matches_kind (bool b) k_bool = true
matches_kind v k = false

pub data Malformed : Type 0 where
  unknown_frame_type not_a_map missing_frame_kind frame_kind_not_uint contradicting_frame_kind :
      Malformed
  missing_corr bad_corr negative_key non_integer_key nil_record : Malformed
  bad_sub_id missing_sub_id stray_sub_id missing_batch_seq bad_batch_seq : Malformed
  not_an_array element_not_a_map no_content empty_update : Malformed
  missing_sub_stream_id bad_sub_stream_id party_not_text unnamed_party : Malformed
  bad_cbor : CborError → Malformed
  missing_field wrong_type : ℕ → Malformed

unfoldable pub check_field : Option Value → MemField → Result Malformed (Unit {0})
unfolding matches_kind
check_field none f = fail_if f.required (missing_field f.key)
check_field (some val) f = fail_if (not (matches_kind val f.kind)) (wrong_type f.key)

unfoldable pub check_schema : Entries → List MemField → Result Malformed (Unit {0})
unfolding check_field get
check_schema m [] = ok tt
check_schema m (f ∷ fs) = check_field (get f.key m) f >> check_schema m fs

abbrev pub check_key : Value → Result Malformed (Unit {0})
check_key (uint64 n) = ok tt
check_key (int64 (pos n)) = ok tt
check_key (int64 (negsuc n)) = err negative_key
check_key v = err non_integer_key

-- The loop over cborMap.keys.
unfoldable pub check_keys : Entries → Result Malformed (Unit {0})
check_keys no_entry = ok tt
check_keys (entry k key val es) = check_key key >> check_keys es

-- checkFields; the map of known keys that the source builds is never read.
unfoldable pub check_fields : Entries → List MemField → Result Malformed (Unit {0})
unfolding check_schema check_keys
check_fields m schema = check_schema m schema >> check_keys m

-- The lookup of a frame type's schema.
abbrev pub known_schema : Option (List MemField) → Result Malformed (List MemField)
known_schema none = err unknown_frame_type
known_schema (some schema) = ok schema

-- The decoding that each validator begins with.
unfoldable pub as_map : Result CborError Value → Result Malformed Entries
as_map (err e) = err (bad_cbor e)
as_map (ok (cbor_map m)) = ok m
as_map (ok v) = err not_a_map

unfoldable pub check_frame_kind : ℕ → Option Value → Result Malformed (Unit {0})
check_frame_kind ft none = err missing_frame_kind
check_frame_kind ft (some (uint64 n)) = fail_if (not (n == ft)) contradicting_frame_kind
check_frame_kind ft (some v) = err frame_kind_not_uint

-- corr (1): a byte string of 1 to 64 octets.
unfoldable pub check_corr : Option Value → Result Malformed (Unit {0})
check_corr none = err missing_corr
check_corr (some (bytes b)) = fail_if (ltb (length b) 1 || ltb 64 (length b)) bad_corr
check_corr (some v) = err bad_corr

-- ===== src/Bridge.antt =====
-- The Bridge payloads: the frame types of impl/go/bridge.go, and the codec and the validator of
-- impl/go/bridge_bodies.go.
pub mod Values
pub mod RoundTrip
use npamp_protocol.Prelude.{ℕ, ◌+◌, List, [], ◌∷◌, ◌++◌, length, drop, get_or, Option, none, some}
use npamp_protocol.Prelude.{Bool, true, false, not, ◌&&◌, ltb, ◌==◌, if◌then◌else◌, bytes_eq}
use npamp_protocol.Prelude.{Result, ok, err, ◌>>=◌, ◌>>◌, fail_if}
use npamp_protocol.Prelude.Bytes.{put_be, get_be, slice}
use npamp_protocol.Prelude.Maps.{find}
use npamp_protocol.Tlv.{encode}

abbrev pub bridge_request : ℕ
bridge_request = 0x0100

abbrev pub bridge_response : ℕ
bridge_response = 0x0101

abbrev pub bridge_error : ℕ
bridge_error = 0x0102

abbrev pub bridge_notify : ℕ
bridge_notify = 0x0103

abbrev pub bridge_stream_data : ℕ
bridge_stream_data = 0x0104

abbrev pub bridge_stream_end : ℕ
bridge_stream_end = 0x0105

abbrev pub bridge_envelope : ℕ
bridge_envelope = 0x0010

abbrev pub safety_label : ℕ
safety_label = 0x0013

abbrev pub effect_destructive : ℕ
effect_destructive = 3

abbrev pub bridge_frame_kind : List (ℕ × ℕ)
bridge_frame_kind =
    (bridge_request, 1)
    ∷ (bridge_response, 2)
    ∷ (bridge_error, 4)
    ∷ (bridge_notify, 3)
    ∷ (bridge_stream_data, 5)
    ∷ (bridge_stream_end, 6)
    ∷ []

-- BridgeKindForFrame
unfoldable pub bridge_kind_for_frame : ℕ → Option ℕ
unfolding find
bridge_kind_for_frame ft = find ft bridge_frame_kind

pub record Envelope : Type 0 where
  pub protocol : ℕ  -- uint16
  pub kind : ℕ  -- uint8
  pub content_type : ℕ  -- uint8
  pub flags : ℕ  -- uint8
  pub correlation_id : List ℕ
  pub method : List ℕ

pub record SafetyLabel : Type 0 where
  pub effect : ℕ  -- uint8
  pub scope : List ℕ

pub record BridgeFrame : Type 0 where
  pub envelope : Envelope
  pub safety : Option SafetyLabel
  pub foreign : List ℕ

-- The errors that wrap ErrBridgeMalformed, and the panics of the encoder.
pub data BridgeError : Type 0 where
  not_bridge no_envelope truncated trailing kind_contradicts corr_on_notify no_corr : BridgeError
  oversized : BridgeError

-- EffectiveEffect: no label is the destructive one.
unfoldable pub effective_effect : Option SafetyLabel → ℕ
effective_effect none = effect_destructive
effective_effect (some s) = s.effect

unfoldable pub encode_envelope_value : Envelope → Result BridgeError (List ℕ)
encode_envelope_value e = do
  fail_if (ltb 255 (length e.correlation_id)) oversized
  fail_if (ltb 255 (length e.method)) oversized
  ok (
      put_be 2 e.protocol
      ++ (e.kind
          ∷ e.content_type
          ∷ e.flags
          ∷ length e.correlation_id
          ∷ (e.correlation_id ++ (length e.method ∷ e.method))))

unfoldable pub encode_safety_value : SafetyLabel → Result BridgeError (List ℕ)
encode_safety_value s = do
  fail_if (ltb 255 (length s.scope)) oversized
  ok (s.effect ∷ length s.scope ∷ s.scope)

unfoldable pub encode_safety : Option SafetyLabel → List ℕ → Result BridgeError (List ℕ)
unfolding encode_safety_value encode
encode_safety none out = ok out
encode_safety (some s) out = do
  v ← encode_safety_value s
  ok (encode (record { type = safety_label; value = v }) out)

unfoldable pub encode_bridge_frame : BridgeFrame → Result BridgeError (List ℕ)
unfolding encode_envelope_value encode encode_safety
encode_bridge_frame f = do
  v ← encode_envelope_value f.envelope
  out ← encode_safety f.safety (encode (record { type = bridge_envelope; value = v }) [])
  ok (out ++ f.foreign)

unfoldable pub decode_envelope_value : List ℕ → Result BridgeError Envelope
decode_envelope_value v = do
  fail_if (ltb (length v) 6) truncated
  let corr_len = get_or v 5 0
  fail_if (ltb (length v) (6 + corr_len + 1)) truncated
  let method_len = get_or v (6 + corr_len) 0
  let end = 6 + corr_len + 1 + method_len
  fail_if (ltb (length v) end) truncated
  fail_if (not (length v == end)) trailing
  ok (record {
    protocol = get_be (slice v 0 2);
    kind = get_or v 2 0;
    content_type = get_or v 3 0;
    flags = get_or v 4 0;
    correlation_id = slice v 6 (6 + corr_len);
    method = slice v (6 + corr_len + 1) end;
  })

unfoldable pub decode_safety_value : List ℕ → Result BridgeError SafetyLabel
decode_safety_value v = do
  fail_if (ltb (length v) 2) truncated
  let end = 2 + get_or v 1 0
  fail_if (ltb (length v) end) truncated
  fail_if (not (length v == end)) trailing
  ok (record { effect = get_or v 0 0; scope = slice v 2 end })

abbrev pub known_kind : Option ℕ → Result BridgeError ℕ
known_kind none = err not_bridge
known_kind (some k) = ok k

-- The switch on the frame's role.
unfoldable pub check_correlation : ℕ → List ℕ → Result BridgeError (Unit {0})
check_correlation ft corr =
    if ft == bridge_notify
    then fail_if (not (length corr == 0)) corr_on_notify
    else fail_if (length corr == 0) no_corr

-- The label that may follow the envelope, and the octets after it.
unfoldable pub split_safety : List ℕ → Result BridgeError (Option SafetyLabel × List ℕ)
unfolding get_be decode_safety_value
split_safety rest =
    if not (ltb (length rest) 4) && (get_be (slice rest 0 2) == safety_label)
    then (do
      let s_len = get_be (slice rest 2 4)
      fail_if (ltb (length rest) (4 + s_len)) truncated
      s ← decode_safety_value (slice rest 4 (4 + s_len))
      ok (some s, drop (4 + s_len) rest))
    else ok (none, rest)

unfoldable pub validate_bridge_payload : ℕ → List ℕ → Result BridgeError BridgeFrame
unfolding bridge_kind_for_frame get_be decode_envelope_value check_correlation split_safety
validate_bridge_payload ft payload = do
  want ← known_kind (bridge_kind_for_frame ft)
  fail_if (ltb (length payload) 4) no_envelope
  fail_if (not (get_be (slice payload 0 2) == bridge_envelope)) no_envelope
  let env_len = get_be (slice payload 2 4)
  fail_if (ltb (length payload) (4 + env_len)) truncated
  env ← decode_envelope_value (slice payload 4 (4 + env_len))
  fail_if (not (env.kind == want)) kind_contradicts
  check_correlation ft env.correlation_id
  (safety, foreign) ← split_safety (drop (4 + env_len) payload)
  ok (record { envelope = env; safety = safety; foreign = foreign })

unfoldable pub correlate_bridge_reply : Envelope → Envelope → Bool
correlate_bridge_reply request reply =
    if length request.correlation_id == 0
    then false
    else if length reply.correlation_id == 0
    then false
    else bytes_eq request.correlation_id reply.correlation_id

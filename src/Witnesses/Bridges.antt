-- ===== src/Witnesses/Bridges.antt =====
-- A notification of a tool protocol, with a label, and its octets (impl/go/bridge_bodies.go).
use npamp_protocol.Bridge.{
  BridgeFrame, bridge_notify, bridge_kind_for_frame, encode_bridge_frame, encode_envelope_value,
  encode_safety, encode_safety_value, validate_bridge_payload,
}
use npamp_protocol.Bridge.RoundTrip.{validate_bridge_payload-encode_bridge_frame}
use npamp_protocol.Prelude.{ℕ, List, [], ◌∷◌, ◌≡◌, refl, some, ok, arith}
use npamp_protocol.Prelude.Bytes.{put_be}
use npamp_protocol.Prelude.Maps.{find}
use npamp_protocol.Tlv.{encode}

abbrev notice : BridgeFrame
notice = record {
  envelope = record {
    protocol = 1;
    kind = 3;
    content_type = 1;
    flags = 0;
    correlation_id = [];
    method = 112 ∷ [];
  };
  safety = some (record { effect = 0; scope = 97 ∷ 98 ∷ [] });
  foreign = 0 ∷ 0x13 ∷ 0 ∷ 0 ∷ 123 ∷ [];
}

abbrev notice_octets : List ℕ
notice_octets =
    0 ∷ 0x10 ∷ 0 ∷ 8 ∷ 0 ∷ 1 ∷ 3 ∷ 1 ∷ 0 ∷ 0 ∷ 1 ∷ 112 ∷ 0 ∷ 0x13 ∷ 0 ∷ 4 ∷ 0 ∷ 2 ∷ 97 ∷ 98 ∷ 0
    ∷ 0x13 ∷ 0 ∷ 0 ∷ 123 ∷ []

notice_test : encode_bridge_frame notice ≡ ok notice_octets
unfolding encode_bridge_frame encode_envelope_value encode_safety encode_safety_value encode put_be
notice_test = refl

notice_kind : bridge_kind_for_frame bridge_notify ≡ some 3
unfolding bridge_kind_for_frame find
notice_kind = refl

validate_bridge_payload-encode_bridge_frame_example :
    validate_bridge_payload bridge_notify notice_octets ≡ ok notice
validate_bridge_payload-encode_bridge_frame_example =
    validate_bridge_payload-encode_bridge_frame bridge_notify notice notice_octets
      (record {
        kind_agrees = notice_kind;
        protocol_fits = omega arith;
        correlation_fits = ((λ p. refl), (λ p. absurd (p refl)));
        apart = (λ p. cc);
      })
      notice_test

-- ===== src/Witnesses/Healings.antt =====
-- A re-KEM with the toy functions (impl/go/sdk/ratchet.go).
use npamp_protocol.Witnesses.Toys.{
  toy, toy-IsAead, toy-IsKem, client_end, server_end, client-InSync, server-InSync, encapsulate_toy,
}
use npamp_protocol.Witnesses.Keys.{sample_client, sample_random}
use npamp_protocol.Frame.{header_prefix, marshal_header_into, marshal_binary}
use npamp_protocol.Kem.{kem_share_of, encapsulate_with, combined}
use npamp_protocol.KeySchedule.{
  derive_traffic_secret, derive_key_iv, hkdf_expand_label, hkdf_info, traffic_context,
  ratchet_master_tier2, seal_aes_256_gcm, new_transcript, add_frame_type, add_tlv, sum,
}
use npamp_protocol.Session.Delivery.Accepting.{accepted}
use npamp_protocol.Session.Handlers.{Round}
use npamp_protocol.Session.Healing.Asking.{Asked, rekem-Asked, asked-Requested, target}
use npamp_protocol.Session.Healing.Healed.{Healed, rekem-Healed}
use npamp_protocol.Session.Markers.{encode_rekem, encode_rekem_ack, th_rekem}
use npamp_protocol.Session.Receiving.{receive_wire}
use npamp_protocol.Session.Sending.{Sent, rekem, respond_rekem, answer_rekem}
use npamp_protocol.Session.State.{
  Conn, EpochKeys, derive, current, hold, hold_send, hold_recv, send_state,
}
use npamp_protocol.Session.Wire.{whole, write_wire, seal_with}
use npamp_protocol.Tlv.{encode}
use npamp_protocol.Prelude.{ℕ, ◌≡◌, ◌≢◌, refl, ap, ◌∙◌, List, [], ◌∷◌, none, get_or, arith}
use npamp_protocol.Prelude.Bytes.{put_be}
use npamp_protocol.Prelude.Maps.{find, put}

asks : (rekem toy sample_client whole client_end).failure ≡ none
unfolding rekem send_state current find put derive derive_traffic_secret derive_key_iv
    hkdf_expand_label hkdf_info traffic_context write_wire seal_with marshal_binary
    marshal_header_into header_prefix put_be hold hold_send encode_rekem encode seal_aes_256_gcm
    kem_share_of
asks = refl

asked : Asked toy sample_client client_end
asked = rekem-Asked toy sample_client client_end asks

abbrev answer : Conn → Sent
answer conn =
    respond_rekem toy (7 ∷ []) sample_random (kem_share_of toy sample_client)
      (target toy sample_client client_end) whole conn

answer_fine : (st : EpochKeys) → (answer (accepted st 0 server_end)).failure ≡ none
unfolding respond_rekem answer_rekem send_state current find put derive derive_traffic_secret
    derive_key_iv hkdf_expand_label hkdf_info traffic_context write_wire seal_with marshal_binary
    marshal_header_into header_prefix put_be hold hold_send hold_recv accepted encode_rekem_ack
    encode seal_aes_256_gcm kem_share_of encapsulate_with encapsulate_toy th_rekem new_transcript
    add_frame_type add_tlv sum ratchet_master_tier2 combined
answer_fine st = refl

answer_first : (st : EpochKeys) → get_or (answer (accepted st 0 server_end)).wire 0 0 ≡ 78
unfolding respond_rekem answer_rekem send_state current find put derive derive_traffic_secret
    derive_key_iv hkdf_expand_label hkdf_info traffic_context write_wire seal_with marshal_binary
    marshal_header_into header_prefix put_be hold hold_send hold_recv accepted encode_rekem_ack
    encode seal_aes_256_gcm kem_share_of encapsulate_with encapsulate_toy th_rekem new_transcript
    add_frame_type add_tlv sum ratchet_master_tier2 combined
answer_first st = refl

abbrev asked_server : Conn
asked_server = (receive_wire toy (rekem toy sample_client whole client_end).wire server_end).conn

asked_server-accepted : asked_server ≡ accepted asked.st 0 server_end
asked_server-accepted =
    ap (λ (r : Round). r.conn)
      (asked-Requested toy toy-IsAead toy-IsKem sample_client client_end server_end client-InSync
        asked).round

fine : (answer asked_server).failure ≡ none
fine = ap (λ (b : Conn). (answer b).failure) asked_server-accepted ∙ answer_fine asked.st

writes : (answer asked_server).wire ≢ []
writes e = absurd (
    omega (
      arith,
      ap (λ (b : Conn). get_or (answer b).wire 0 0) asked_server-accepted,
      answer_first asked.st,
      ap (λ (xs : List ℕ). get_or xs 0 0) e,
    ))

rekem-Healed_example :
    Healed toy client_end server_end sample_client
      (rekem toy sample_client whole client_end)
      (answer asked_server)
rekem-Healed_example =
    rekem-Healed toy toy-IsAead toy-IsKem sample_client (7 ∷ []) sample_random client_end server_end
      client-InSync server-InSync asks fine writes

-- ===== src/Session/Reporting.antt =====
-- The ERROR frame of sendSessionError (impl/go/sdk/close.go), as the other end reads it.
use npamp_protocol.Crypto.{Crypto, IsAead}
use npamp_protocol.Cbor.{encode, encode_head, byte_less}
use npamp_protocol.Frame.{header_size, max_frame_size}
use npamp_protocol.ErrorFrame.{encode_error_body, decode_error_body}
use npamp_protocol.ErrorFrame.Body.{decode_error_body-encode_error_body}
use npamp_protocol.Session.Closing.{send_session_error}
use npamp_protocol.Session.Flows.{IsBounded}
use npamp_protocol.Session.Sealing.{IsSealed, FitsFrame, seal_with-IsSealed, length-seal_with}
use npamp_protocol.Session.State.{EpochKeys, Conn, current, send_state}
use npamp_protocol.Session.Wire.{whole, write_wire, seal_with}
use npamp_protocol.Prelude.{ℕ, ◌<◌, ◌≤◌, ◌≡◌, none, arith, List, [], length, false, ok}

-- The octets are a frame of type 5 on channel 0, sealed under the keys, with a body that
-- DecodeErrorBody reads as the code without context.
pub record IsReport (c : Crypto) (st : EpochKeys) (code : ℕ) (wire : List ℕ) : Type 0 where
  pub body : List ℕ
  pub sealed : IsSealed c st 0 5 body wire
  pub decoded : decode_error_body body ≡ ok (code, [])

length-encode_error_body : (code : ℕ) → code < 24 → length (encode_error_body code []) ≡ 5
unfolding encode_error_body encode byte_less encode_head
length-encode_error_body code h = ground arith

write_wire_fits :
    (wire : List ℕ)
    → header_size ≤ length wire
    → length wire ≤ max_frame_size
    → write_wire whole wire ≡ (wire, none)
unfolding write_wire
write_wire_fits wire p q = ground arith

module _ (c : Crypto) (aead : IsAead c) (st : EpochKeys) (bounded : IsBounded st) (code : ℕ)
    (small : code < 24) where
  abbrev report : List ℕ
  report = seal_with c st 0 5 (encode_error_body code [])

  report-IsReport : IsReport c st code report
  report-IsReport = record {
    body = encode_error_body code [];
    sealed = seal_with-IsSealed c aead st 0 5 (encode_error_body code []) bounded (record {
      channel_fits = omega arith;
      type_fits = omega arith;
      text_fits = omega (arith, length-encode_error_body code small);
    });
    decoded = decode_error_body-encode_error_body code [] (omega arith) (omega arith);
  }

  write_wire-report : write_wire whole report ≡ (report, none)
  write_wire-report =
      let fits : FitsFrame 0 5 (encode_error_body code []) = record {
        channel_fits = omega arith;
        type_fits = omega arith;
        text_fits = omega (arith, length-encode_error_body code small);
      } in
      let size = length-seal_with c aead st 0 5 (encode_error_body code []) bounded fits in
      write_wire_fits (seal_with c st 0 5 (encode_error_body code [])) (omega (arith, size))
        (omega (arith, size, length-encode_error_body code small))

  pub send_session_error-IsReport :
      (conn : Conn)
      → conn.closed ≡ false
      → current c conn.profile conn.send 0 ≡ ok st
      → IsReport c st code (send_session_error c whole code conn).wire
  unfolding send_session_error send_state
  send_session_error-IsReport conn live keys =
      rw (live, keys) (rw write_wire-report report-IsReport)

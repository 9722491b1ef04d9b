-- ===== src/Session/Default.antt =====
-- The total default of the Control channel: recvLocked and Recv of impl/go/sdk/conn.go, with
-- sendSessionError of close.go.
use npamp_protocol.Crypto.{Crypto, IsAead}
use npamp_protocol.ErrorFrame.{unexpected_message}
use npamp_protocol.Session.Closing.{frame_close, frame_close_ack, frame_error, send_session_error}
use npamp_protocol.Session.Delivery.Accepting.{accepted, receive_wire-sealed}
use npamp_protocol.Session.Handlers.{Action, emit_error, stop_with}
use npamp_protocol.Session.Markers.{
  frame_master_ratchet, frame_master_ratchet_ack, frame_rekem, frame_rekem_ack,
}
use npamp_protocol.Session.Receiving.{
  Received, Delivery, dispatch, receive_wire, received, recv_loop, recv_locked, react, recv,
}
use npamp_protocol.Session.Reporting.{IsReport, send_session_error-IsReport}
use npamp_protocol.Session.Flows.{IsBounded}
use npamp_protocol.Relay.{Source}
use npamp_protocol.Session.Sealing.{IsSealed}
use npamp_protocol.Session.Sending.{
  Sent, chan_control, frame_key_update, frame_key_update_ack, after_write,
}
use npamp_protocol.Session.State.{
  EpochKeys, Conn, ConnError, unexpected_type, current, hold_send, hold_recv, bump, send_state,
  close, zeroize,
}
use npamp_protocol.Session.Wire.{Write, whole, write_wire, read_wire}
use npamp_protocol.Prelude.{ℕ, List, ◌≡◌, ◌≢◌, inl, inr, refl, ◌∙◌, arith}
use npamp_protocol.Prelude.{Option, none, some, true, false, ok, err, Result-cases, Bool-cases}

-- A type that has no transition on Control in an established session.
pub record IsUnexpected (ft : ℕ) : Type 0 where
  pub no_key_update : ft ≢ frame_key_update
  pub no_key_update_ack : ft ≢ frame_key_update_ack
  pub no_ratchet : ft ≢ frame_master_ratchet
  pub no_ratchet_ack : ft ≢ frame_master_ratchet_ack
  pub no_rekem : ft ≢ frame_rekem
  pub no_rekem_ack : ft ≢ frame_rekem_ack
  pub no_close : ft ≢ frame_close
  pub no_close_ack : ft ≢ frame_close_ack
  pub no_error : ft ≢ frame_error

after_write-shut :
    (o : List ℕ × Option ConnError) (undone done : Conn) (f : Option ConnError)
    → done.shut ≡ undone.shut
    → (after_write o undone (done, f)).conn.shut ≡ undone.shut
after_write-shut (out, none) undone done f e = e
after_write-shut (out, some why) undone done f e = refl

module _ (c : Crypto) where
  dispatch-unexpected :
      (ft : ℕ) (st : EpochKeys) (plaintext : List ℕ) (conn : Conn)
      → IsUnexpected ft
      → dispatch c ft chan_control st plaintext conn
        ≡ stop_with (emit_error unexpected_message unexpected_type) conn
  unfolding dispatch
  dispatch-unexpected ft st plaintext conn u = ground arith

  -- An ERROR frame leaves closeOnce as it was.
  send_session_error-shut :
      (w : Write) (code : ℕ) (conn : Conn)
      → (send_session_error c w code conn).conn.shut ≡ conn.shut
  unfolding send_session_error send_state hold_send
  send_session_error-shut w code conn = elim (Bool-cases conn.closed) [
    | inl e ↦ rw e refl
    | inr e ↦ elim (Result-cases (current c conn.profile conn.send chan_control)) [
      | inr (why, k) ↦ rw (e, k) refl
      | inl (st, k) ↦ rw (e, k) (after_write-shut (write_wire w _) _ _ none refl)
    ]
  ]

  close-closed : (conn : Conn) → conn.shut ≡ false → (close conn).closed ≡ true
  unfolding close zeroize
  close-closed conn h = rw h refl

  -- What recvLocked returns when the first frame of the stream stops it.
  recv_locked-stops :
      (s rest : Source) (wire : List ℕ) (conn conn' : Conn) (action : Action)
      → read_wire false s ≡ ok (wire, rest)
      → receive_wire c wire conn ≡ stop_with action conn'
      → recv_locked c false s conn ≡ received conn' rest action
  unfolding recv_locked recv_loop
  recv_locked-stops s rest wire conn conn' action read round = rw (recv_loop, read) (rw round refl)

  module _ (aead : IsAead c) (b : Conn) (st reply : EpochKeys) (ft : ℕ) (plaintext wire : List ℕ)
      (s rest : Source) (live : b.closed ≡ false) (unshut : b.shut ≡ false)
      (keys : current c b.profile b.recv chan_control ≡ ok st)
      (reply_keys : current c b.profile b.send chan_control ≡ ok reply) (bounded : IsBounded reply)
      (sealed : IsSealed c st chan_control ft plaintext wire) (unexpected : IsUnexpected ft)
      (read : read_wire false s ≡ ok (wire, rest)) where
    abbrev rejecting : Conn
    rejecting = accepted st chan_control b

    unexpected_round :
        receive_wire c wire b ≡ stop_with (emit_error unexpected_message unexpected_type) rejecting
    unexpected_round =
        receive_wire-sealed c st chan_control ft plaintext wire b live keys sealed
        ∙ dispatch-unexpected ft (bump st) plaintext rejecting unexpected

    abbrev rejected : Write → Received × (Sent × Delivery)
    rejected w =
        let action = emit_error unexpected_message unexpected_type in
        (received rejecting rest action, react c w action rejecting)

    recv-rejected : (w : Write) → recv c false w s b ≡ rejected w
    unfolding recv
    recv-rejected w = rw (recv_locked-stops s rest wire b rejecting _ read unexpected_round) refl

    rejecting-IsReport : IsReport c reply 1 (send_session_error c whole 1 rejecting).wire
    unfolding accepted hold_recv
    rejecting-IsReport =
        send_session_error-IsReport c aead reply bounded 1 (omega arith) rejecting live reply_keys

    -- A stream that begins with a frame on Control, sealed under the current keys and of a type with
    -- no transition: Recv takes that frame off the stream, returns an error and closes the
    -- connection, whatever becomes of its write, and a write that succeeds is an ERROR frame, sealed
    -- under the sender's current keys of Control, that DecodeErrorBody reads as the code 1,
    -- unexpected_message, without context. The connection was not closed, the sequence of those keys
    -- is below 2 ^ 64, and the AEAD opens what it sealed.
    pub recv-unexpected :
        (w : Write)
        → ((recv c false w s b).0.rest ≡ rest)
          × ((recv c false w s b).1.1 ≡ err unexpected_type)
          × ((recv c false w s b).1.0.conn.closed ≡ true)
          × IsReport c reply 1 (recv c false whole s b).1.0.wire
    unfolding react accepted hold_recv
    recv-unexpected w =
        rw (recv-rejected w, recv-rejected whole)
          (
            refl,
            refl,
            close-closed _ (send_session_error-shut w 1 rejecting ∙ unshut),
            rejecting-IsReport,
          )

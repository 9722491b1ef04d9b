-- ===== src/Session/Closing.antt =====
-- The end of a connection: close.go of impl/go/sdk, and the ERROR frame that a receiver sends.
use npamp_protocol.Crypto.{Crypto}
use npamp_protocol.ErrorFrame.{encode_error_body}
use npamp_protocol.Session.State.{Conn, sequence_exhausted, hold_send, bump, send_state, close}
use npamp_protocol.Session.Wire.{Write, write_wire, seal_with}
use npamp_protocol.Session.Sending.{
  Sent, refused, skipped, after_write, given_state, chan_control, last_seq,
}
use npamp_protocol.Prelude.{ℕ, [], none, Bool, true, false, ◌==◌, if◌then◌else◌}

abbrev pub frame_close : ℕ
frame_close = 0x0003

abbrev pub frame_close_ack : ℕ
frame_close_ack = 0x0004

abbrev pub frame_error : ℕ
frame_error = 0x0005

module _ (c : Crypto) where
  unfoldable pub send_session_error : Write → ℕ → Conn → Sent
  send_session_error w code conn =
      given_state (send_state c chan_control conn) (λ e. skipped conn)
        (λ st conn'.
          after_write
            (write_wire w (seal_with c st chan_control frame_error (encode_error_body code [])))
            conn' (hold_send chan_control (bump st) conn', none))

  unfoldable pub send_close_ack : Write → Conn → Sent
  send_close_ack w conn =
      given_state (send_state c chan_control conn) (λ e. skipped conn)
        (λ st conn'.
          after_write (write_wire w (seal_with c st chan_control frame_close_ack [])) conn'
            (hold_send chan_control (bump st) conn', none))

  -- sendClose, which on a closed connection does nothing and reports no error; CLOSING is set before the write.
  unfoldable pub send_close : Write → Conn → Sent
  send_close w conn =
      if conn.closed
      then skipped conn
      else given_state (send_state c chan_control conn) (λ e. refused e conn)
          (λ st conn'.
            if st.seq == last_seq
            then refused sequence_exhausted conn'
            else after_write (write_wire w (seal_with c st chan_control frame_close []))
                (record conn' { closing = false })
                (record (hold_send chan_control (bump st) conn') { closing = true }, none))

-- signalCloseAck: whether a CLOSE_ACK was awaited.
unfoldable pub signal_close_ack : Conn → Conn × Bool
signal_close_ack conn =
    if conn.closing then (record conn { closing = false }, true) else (conn, false)

unfoldable pub clear_closing : Conn → Conn
clear_closing conn = record conn { closing = false }

-- CloseGraceful after its CLOSE: Recv goes on until the CLOSE_ACK is there or the wait ends.
unfoldable pub finish_close : Bool → Conn → Conn
unfolding clear_closing
finish_close acknowledged conn = if acknowledged then close conn else close (clear_closing conn)

-- ===== src/Session/Receiving.antt =====
-- Recv of impl/go/sdk/conn.go: what one frame on the wire does to the state of the receiver, the loop
-- over a stream, and the reaction to a frame that ends the loop.
use Prim.Native.Nat.{bit_and}
use npamp_protocol.Crypto.{Crypto}
use npamp_protocol.ErrorFrame.{decode_error_body, unexpected_message}
use npamp_protocol.Frame.{Frame, flag_enc, unmarshal_binary}
use npamp_protocol.Relay.{Source}
use npamp_protocol.Session.State.{
  EpochKeys, Conn, ConnError, peer_closed, malformed_frame, unsolicited, close_with_payload,
  unexpected_type, malformed_error, session_error, stuck, hold_recv, bump, recv_state, close,
}
use npamp_protocol.Session.Wire.{Write, open_with, read_wire}
use npamp_protocol.Session.Markers.{
  frame_master_ratchet, frame_master_ratchet_ack, frame_rekem, frame_rekem_ack,
}
use npamp_protocol.Session.Sending.{Sent, chan_control, frame_key_update, frame_key_update_ack}
use npamp_protocol.Session.Closing.{
  frame_close, frame_close_ack, frame_error, signal_close_ack, send_session_error, send_close_ack,
}
use npamp_protocol.Session.Handlers.{
  Task, Action, Round, deliver, fail, emit_error, close_ack, peer_error, stop_with,
  drop_unauthenticated, drop_out_of_sequence, handle_key_update, handle_key_update_ack,
  handle_master_ratchet, handle_master_ratchet_ack, handle_rekem, handle_rekem_ack,
}
use npamp_protocol.Prelude.{ℕ, zero, suc, List, [], ◌∷◌, length, Option, none, some, Bool}
use npamp_protocol.Prelude.{not, ltb, ◌==◌, if◌then◌else◌, Result, ok, err}

-- A CLOSE on Control
unfoldable pub on_close : List ℕ → Conn → Round
on_close plaintext conn =
    if ltb 0 (length plaintext)
    then stop_with (emit_error unexpected_message close_with_payload) conn
    else stop_with close_ack conn

-- A CLOSE_ACK on Control
unfoldable pub on_close_ack : Conn → Round
on_close_ack conn =
    let (conn', awaited) = signal_close_ack conn in
    if awaited
    then stop_with (fail peer_closed) conn'
    else stop_with (emit_error unexpected_message unsolicited) conn'

-- An ERROR on Control
unfoldable pub on_error : List ℕ → Conn → Round
on_error plaintext conn = elim (decode_error_body plaintext) [
  | err e ↦ stop_with (fail malformed_error) conn
  | ok (code, context) ↦ stop_with (peer_error (session_error code context)) conn
]

module _ (c : Crypto) where
  -- The cases of the switch of recvLocked that test for Control, on Control, and its default.
  unfoldable pub dispatch_control : ℕ → List ℕ → Conn → Round
  unfolding on_close on_close_ack on_error
  dispatch_control ft plaintext conn =
      if ft == frame_master_ratchet
      then handle_master_ratchet c plaintext conn
      else if ft == frame_master_ratchet_ack
      then handle_master_ratchet_ack c plaintext conn
      else if ft == frame_rekem
      then handle_rekem c plaintext conn
      else if ft == frame_rekem_ack
      then handle_rekem_ack c plaintext conn
      else if ft == frame_close
      then on_close plaintext conn
      else if ft == frame_close_ack
      then on_close_ack conn
      else if ft == frame_error
      then on_error plaintext conn
      else stop_with (emit_error unexpected_message unexpected_type) conn

  -- The switch: on another channel each of those cases delivers the frame.
  unfoldable pub dispatch : ℕ → ℕ → EpochKeys → List ℕ → Conn → Round
  unfolding dispatch_control
  dispatch ft channel st plaintext conn =
      if ft == frame_key_update
      then handle_key_update c channel st plaintext conn
      else if ft == frame_key_update_ack
      then handle_key_update_ack c channel plaintext conn
      else if channel == chan_control
      then dispatch_control ft plaintext conn
      else stop_with (deliver channel ft plaintext) conn

  -- What follows openWith.
  unfoldable pub receive_opened : Frame → EpochKeys → Option (List ℕ) → Conn → Round
  unfolding dispatch
  receive_opened f st none conn = drop_unauthenticated conn
  receive_opened f st (some plaintext) conn =
      dispatch f.type f.channel (bump st) plaintext (hold_recv f.channel (bump st) conn)

  -- What follows recvState.
  unfoldable pub receive_sealed : Frame → Result ConnError (EpochKeys × Conn) → Conn → Round
  unfolding receive_opened
  receive_sealed f (err e) conn = stop_with (fail e) conn
  receive_sealed f (ok (st, conn')) conn =
      if not (f.seq == st.seq)
      then drop_out_of_sequence conn'
      else receive_opened f st (open_with c st f) conn'

  unfoldable pub receive_frame : Frame → Conn → Round
  unfolding receive_sealed
  receive_frame f conn =
      if bit_and f.flags flag_enc == 0
      then drop_unauthenticated conn
      else receive_sealed f (recv_state c f.channel conn) conn

  -- A round of the loop after readWire.
  unfoldable pub receive_wire : List ℕ → Conn → Round
  unfolding receive_frame
  receive_wire wire conn = elim (unmarshal_binary wire) [
    | err e ↦ stop_with (fail (malformed_frame e)) conn
    | ok f ↦ receive_frame f conn
  ]

-- What recvLocked leaves: the state, the rest of the stream, the tasks it started, and the action.
pub record Received : Type 0 where
  pub conn : Conn
  pub rest : Source
  pub tasks : List Task
  pub action : Action

abbrev pub with_task : Option Task → Received → Received
with_task none r = r
with_task (some t) r = record r { tasks = t ∷ r.tasks }

abbrev pub received : Conn → Source → Action → Received
received conn rest action = record { conn = conn; rest = rest; tasks = []; action = action }

-- A round that has an action ends the loop.
abbrev pub after_round : Option Action → Conn → Source → Received → Received
after_round none conn rest later = later
after_round (some action) conn rest later = received conn rest action

module _ (c : Crypto) (deadline_fails : Bool) where
  -- recvLocked, with fuel: a round takes a header at least.
  unfoldable pub recv_loop : ℕ → Source → Conn → Received
  unfolding receive_wire
  recv_loop zero s conn = received conn s (fail stuck)
  recv_loop (suc fuel) s conn = elim (read_wire deadline_fails s) [
    | err (e, rest) ↦ received conn rest (fail e)
    | ok (wire, rest) ↦
        let round = receive_wire c wire conn in
        with_task round.task
          (after_round round.action round.conn rest (recv_loop fuel rest round.conn))
  ]

  unfoldable pub recv_locked : Source → Conn → Received
  unfolding recv_loop
  recv_locked s conn = recv_loop (suc (length s.octets)) s conn

-- What Recv returns to its caller.
abbrev pub Delivery : Type 0
Delivery = Result ConnError (ℕ × ℕ × List ℕ)

abbrev pub closing_with : ConnError → Sent → Sent × Delivery
closing_with e s = (record s { conn = close s.conn }, err e)

-- Recv after recvLocked: the reaction to an action, written with the outcome of the write.
unfoldable pub react : Crypto → Write → Action → Conn → Sent × Delivery
react c w (deliver channel ft payload) conn =
    (record { conn = conn; wire = []; failure = none }, ok (channel, ft, payload))
react c w (fail e) conn = (record { conn = conn; wire = []; failure = none }, err e)
react c w (emit_error code e) conn = closing_with e (send_session_error c w code conn)
react c w close_ack conn = closing_with peer_closed (send_close_ack c w conn)
react c w (peer_error e) conn = closing_with e (record { conn = conn; wire = []; failure = none })

unfoldable pub recv : Crypto → Bool → Write → Source → Conn → Received × (Sent × Delivery)
unfolding recv_locked react
recv c deadline_fails w s conn =
    let r = recv_locked c deadline_fails s conn in (r, react c w r.action r.conn)

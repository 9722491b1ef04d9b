-- ===== src/Session/Replay.antt =====
-- A frame that arrives twice (recvLocked of impl/go/sdk/conn.go).
use npamp_protocol.Crypto.{Crypto}
use npamp_protocol.Session.Delivery.Accepting.{accepted, receive_wire-sealed}
use npamp_protocol.Session.Drops.{IsNoise, Dropped, receive_wire-Dropped}
use npamp_protocol.Session.Flows.{IsBounded, current-hold}
use npamp_protocol.Session.Handlers.{Round, deliver, stop_with}
use npamp_protocol.Session.Receiving.{dispatch, receive_wire}
use npamp_protocol.Session.Sealing.{IsSealed}
use npamp_protocol.Session.Sending.{chan_control, frame_key_update, frame_key_update_ack}
use npamp_protocol.Session.State.{EpochKeys, Conn, current, hold, hold_recv, bump}
use npamp_protocol.Prelude.{ℕ, List, ◌≡◌, ◌≢◌, refl, ap, ◌∙◌, arith, inl, inr}
use npamp_protocol.Prelude.{some, false, ok, ==_refl}

module _ (c : Crypto) (b : Conn) (st : EpochKeys) (channel ft : ℕ) (payload wire : List ℕ)
    (live : b.closed ≡ false) (bounded : IsBounded st)
    (keys : current c b.profile b.recv channel ≡ ok st)
    (sealed : IsSealed c st channel ft payload wire) (on_channel : channel ≢ chan_control)
    (no_update : ft ≢ frame_key_update) (no_ack : ft ≢ frame_key_update_ack) where
  delivered : receive_wire c wire b ≡ stop_with (deliver channel ft payload) (accepted st channel b)
  unfolding dispatch
  delivered = receive_wire-sealed c st channel ft payload wire b live keys sealed ∙ ground arith

  next_keys : current c b.profile (accepted st channel b).recv channel ≡ ok (bump st)
  unfolding accepted hold_recv
  next_keys =
      rw
        (
          current-hold c b.profile channel (bump st) (hold channel st b.recv) channel,
          ==_refl channel,
        )
        refl

  replayed-IsNoise : IsNoise c (accepted st channel b) wire
  unfolding accepted hold_recv bump
  replayed-IsNoise = record {
    frame = sealed.frame;
    st = bump st;
    parsed = sealed.parsed;
    keys = rw sealed.on_channel next_keys;
    droppable = inr (inl (λ e. absurd (omega (arith, sealed.in_sequence, e, bounded.seq))));
  }

  accepted_live : (accepted st channel b).closed ≡ false
  unfolding accepted hold_recv
  accepted_live = live

  -- On a connection that is not closed, a frame of an application that is sealed under the current
  -- keys of its channel is handed on when it arrives; when the same octets arrive again as the next
  -- frame, they are dropped and counted.
  pub receive_wire-again :
      ((receive_wire c wire b).action ≡ some (deliver channel ft payload))
      × Dropped c (receive_wire c wire b).conn (receive_wire c wire (receive_wire c wire b).conn)
  receive_wire-again = (
    ap (λ (r : Round). r.action) delivered,
    rw delivered
        (receive_wire-Dropped c (accepted st channel b) wire accepted_live replayed-IsNoise),
  )

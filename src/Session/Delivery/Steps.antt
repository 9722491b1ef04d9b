-- ===== src/Session/Delivery/Steps.antt =====
-- One operation at one end and the reception of its frame at the other (impl/go/sdk/conn.go,
-- keyupdate.go, ratchet.go).
use npamp_protocol.Crypto.{Crypto, IsAead}
use npamp_protocol.Session.Delivery.Accepting.{accepted, receive_wire-sealed}
use npamp_protocol.Session.Delivery.Sealed.{Wrote, rotated, send-Wrote, key_update-Wrote}
use npamp_protocol.Session.Flows.{
  Agree, IsBounded, bump-IsBounded, advance-IsBounded, hold-Agree, hold_twice-Agree,
}
use npamp_protocol.Session.Handlers.{
  Round, handle_key_update, deliver, ack_key_update, go_on, stop_with,
}
use npamp_protocol.Session.Wire.{whole}
use npamp_protocol.Session.Markers.{key_update_marker}
use npamp_protocol.Session.MarkerRoundTrip.{parse_key_update_marker-key_update_marker}
use npamp_protocol.Session.Receiving.{dispatch, receive_wire}
use npamp_protocol.Session.Sealing.{FitsFrame, seal_with-IsSealed}
use npamp_protocol.Session.Sending.{
  Sent, send, key_update, frame_key_update, frame_key_update_ack, chan_control,
}
use npamp_protocol.Session.State.{EpochKeys, Conn, advance, current, hold, hold_recv, bump}
use npamp_protocol.Prelude.{
  ℕ, ◌+◌, ◌%◌, ◌^◌, ◌<◌, ==_refl, List, ◌≡◌, ◌≢◌, refl, sym, ap, ◌∙◌, arith,
}
use npamp_protocol.Tlv.{encode}
use npamp_protocol.Prelude.Bytes.{put_be}
use npamp_protocol.Prelude.{none, some, false, ok}

-- What `a` sends with, `b` receives with.
pub record InSync (c : Crypto) (a b : Conn) : Type 0 where
  pub profile : a.profile ≡ b.profile
  pub live : b.closed ≡ false
  pub agree : Agree c a.profile a.send b.recv

module _ (c : Crypto) (aead : IsAead c) (a b : Conn) (channel ft : ℕ) (payload : EpochKeys → List ℕ)
    (s : Sent) (sync : InSync c a b) (w : Wrote c a channel ft payload s)
    (fits : FitsFrame channel ft (payload w.st)) where
  st-IsBounded : IsBounded w.st
  st-IsBounded = sync.agree.bounded channel w.st w.keys

  keys-b : current c b.profile b.recv channel ≡ ok w.st
  keys-b =
      ap (λ (p : ℕ). current c p b.recv channel) (sym sync.profile)
      ∙ sym (sync.agree.keys channel)
      ∙ w.keys

  pub received-dispatch :
      receive_wire c s.wire b
      ≡ dispatch c ft channel (bump w.st) (payload w.st) (accepted w.st channel b)
  received-dispatch =
      receive_wire-sealed c w.st channel ft (payload w.st) s.wire b sync.live keys-b
        (rw w.sealed (seal_with-IsSealed c aead w.st channel ft (payload w.st) st-IsBounded fits))

  pub accepted-Agree :
      Agree c a.profile
        (hold channel (bump w.st) (hold channel w.st a.send))
        (accepted w.st channel b).recv
  unfolding accepted hold_recv
  accepted-Agree =
      hold-Agree c a.profile _ _
        (hold-Agree c a.profile a.send b.recv sync.agree channel w.st st-IsBounded) channel
        (bump w.st) (bump-IsBounded w.st st-IsBounded)

module _ (c : Crypto) (aead : IsAead c) (a b : Conn) (sync : InSync c a b) where
  -- A message of an application
  pub record Delivers (channel ft : ℕ) (payload : List ℕ) (s : Sent) (r : Round) : Type 0 where
    pub arrives : r.action ≡ some (deliver channel ft payload)
    pub still : InSync c s.conn r.conn

  -- A control frame
  pub record Continues (s : Sent) (r : Round) : Type 0 where
    pub goes_on : r.action ≡ none
    pub still : InSync c s.conn r.conn

  dispatch-deliver :
      (channel ft : ℕ) (st : EpochKeys) (plaintext : List ℕ) (conn : Conn)
      → channel ≢ chan_control
      → ft ≢ frame_key_update
      → ft ≢ frame_key_update_ack
      → dispatch c ft channel st plaintext conn ≡ stop_with (deliver channel ft plaintext) conn
  unfolding dispatch
  dispatch-deliver channel ft st plaintext conn p q r = ground arith

  pub send-Delivers :
      (channel ft : ℕ) (payload : List ℕ)
      → FitsFrame channel ft payload
      → channel ≢ chan_control
      → ft ≢ frame_key_update
      → ft ≢ frame_key_update_ack
      → (send c whole channel ft payload a).failure ≡ none
      → Delivers channel ft payload
          (send c whole channel ft payload a)
          (receive_wire c (send c whole channel ft payload a).wire b)
  unfolding accepted hold_recv
  send-Delivers channel ft payload fits p q r h =
      let (w, flow) = send-Wrote c channel ft payload a h in
      let s = send c whole channel ft payload a in
      let e =
        received-dispatch c aead a b channel ft (λ st. payload) s sync w fits
        ∙ dispatch-deliver channel ft (bump w.st) payload (accepted w.st channel b) p q r in
      record {
        arrives = ap (λ (r : Round). r.action) e;
        still = rw e (record {
          profile = w.profile ∙ sync.profile;
          live = sync.live;
          agree =
              rw (w.profile, flow)
                (accepted-Agree c aead a b channel ft (λ st. payload) s sync w fits);
        });
      }

  dispatch-key_update :
      (channel : ℕ) (st st' : EpochKeys) (conn : Conn)
      → IsBounded st
      → advance c st conn.recv.master conn.recv.dir channel conn.profile ≡ (st', none)
      → dispatch c frame_key_update channel st (key_update_marker ((st.epoch + 1) % 2 ^ 64)) conn
        ≡ go_on
            (hold_recv channel st' conn)
            (some (ack_key_update channel ((st.epoch + 1) % 2 ^ 64)))
  unfolding dispatch handle_key_update
  dispatch-key_update channel st st' conn b h =
      rw
        (
          handle_key_update,
          parse_key_update_marker-key_update_marker ((st.epoch + 1) % 2 ^ 64) (omega arith),
          ==_refl ((st.epoch + 1) % 2 ^ 64),
          h,
        )
        refl

  key_update-FitsFrame :
      (channel : ℕ) (st : EpochKeys)
      → channel < 2 ^ 16
      → FitsFrame channel frame_key_update (key_update_marker ((st.epoch + 1) % 2 ^ 64))
  unfolding key_update_marker encode put_be
  key_update-FitsFrame channel st h = record {
    channel_fits = h;
    type_fits = omega arith;
    text_fits = omega arith;
  }

  abbrev update_payload : EpochKeys → List ℕ
  update_payload st = key_update_marker ((st.epoch + 1) % 2 ^ 64)

  module _ (channel : ℕ) (s : Sent) (w : Wrote c a channel frame_key_update update_payload s)
      (v : EpochKeys) (v_bounded : IsBounded v) (turned : rotated c channel a w.st ≡ (v, none))
      (flow : s.conn.send ≡ hold channel v (hold channel w.st a.send)) where
    turned-b : advance c (bump w.st) b.recv.master b.recv.dir channel b.profile ≡ (v, none)
    turned-b =
        (λ i.
          advance c (bump w.st) (sym sync.agree.master i) (sym sync.agree.dir i) channel
            (sym sync.profile i))
        ∙ turned

    updated-Agree :
        Agree c a.profile s.conn.send (hold_recv channel v (accepted w.st channel b)).recv
    unfolding accepted hold_recv
    updated-Agree =
        let cached =
          hold-Agree c a.profile a.send b.recv sync.agree channel w.st
            (sync.agree.bounded channel w.st w.keys) in
        rw flow (
          hold_twice-Agree c a.profile (hold channel v (hold channel w.st a.send))
            (hold channel w.st b.recv) channel (bump w.st) v
            (hold-Agree c a.profile _ _ cached channel v v_bounded))

    received_update :
        channel < 2 ^ 16
        → receive_wire c s.wire b
          ≡ go_on
              (hold_recv channel v (accepted w.st channel b))
              (some (ack_key_update channel ((w.st.epoch + 1) % 2 ^ 64)))
    unfolding accepted hold_recv hold bump
    received_update fits =
        received-dispatch c aead a b channel frame_key_update update_payload s sync w
          (key_update-FitsFrame channel w.st fits)
        ∙ dispatch-key_update channel (bump w.st) v (accepted w.st channel b)
            (bump-IsBounded w.st (sync.agree.bounded channel w.st w.keys)) turned-b

    updated-Continues : channel < 2 ^ 16 → Continues s (receive_wire c s.wire b)
    unfolding accepted hold_recv
    updated-Continues fits = rw (received_update fits) (record {
      goes_on = refl;
      still = record {
        profile = w.profile ∙ sync.profile;
        live = sync.live;
        agree = rw w.profile updated-Agree;
      };
    })

  pub key_update-Continues :
      (channel : ℕ)
      → channel < 2 ^ 16
      → (key_update c whole channel a).failure ≡ none
      → Continues
          (key_update c whole channel a)
          (receive_wire c (key_update c whole channel a).wire b)
  key_update-Continues channel fits h =
      let done = key_update-Wrote c channel a h in
      let w = done.0 in
      let fine = done.1 in
      updated-Continues channel (key_update c whole channel a) w (rotated c channel a w.st).0
        (advance-IsBounded c (bump w.st) a.send.master a.send.dir channel a.profile)
        (λ i. ((rotated c channel a w.st).0, fine i)) done.2 fits

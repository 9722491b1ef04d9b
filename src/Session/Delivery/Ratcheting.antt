-- ===== src/Session/Delivery/Ratcheting.antt =====
-- RatchetSend at one end and the reception of MASTER_RATCHET at the other
-- (impl/go/sdk/ratchet.go).
use npamp_protocol.Crypto.{Crypto, IsAead}
use npamp_protocol.KeySchedule.{ratchet_master_tier1}
use npamp_protocol.Session.Delivery.Accepting.{accepted}
use npamp_protocol.Session.Delivery.Rooted.{next_gen, tier1, ratchet_send-Wrote}
use npamp_protocol.Session.Delivery.Sealed.{Wrote}
use npamp_protocol.Session.Delivery.Steps.{InSync, Continues, received-dispatch}
use npamp_protocol.Session.Flows.{next_root-Agree}
use npamp_protocol.Session.Handlers.{handle_master_ratchet, ack_ratchet, go_on, to_recv_root}
use npamp_protocol.Session.Markers.{ratchet_gen_marker, frame_master_ratchet}
use npamp_protocol.Session.MarkerRoundTrip.{parse_ratchet_gen_marker-ratchet_gen_marker}
use npamp_protocol.Session.Receiving.{dispatch, receive_wire}
use npamp_protocol.Session.Sealing.{FitsFrame}
use npamp_protocol.Session.Sending.{Sent, ratchet_send, chan_control}
use npamp_protocol.Session.State.{EpochKeys, Conn, hold, hold_recv, bump, next_root}
use npamp_protocol.Session.Wire.{whole}
use npamp_protocol.Tlv.{encode}
use npamp_protocol.Prelude.{ℕ, ◌+◌, ◌%◌, ◌^◌, ◌<◌, ==_refl, List, ◌≡◌, refl, sym, ap, ◌∙◌, arith}
use npamp_protocol.Prelude.{none, some, ok}
use npamp_protocol.Prelude.Bytes.{put_be}

module _ (c : Crypto) (aead : IsAead c) (a b : Conn) (sync : InSync c a b) where
  dispatch-master_ratchet :
      (st : EpochKeys) (gen : ℕ) (root : List ℕ) (conn : Conn)
      → gen < 2 ^ 64
      → gen ≡ (conn.recv.gen + 1) % 2 ^ 64
      → ratchet_master_tier1 c conn.recv.master gen conn.profile ≡ ok root
      → dispatch c frame_master_ratchet chan_control st (ratchet_gen_marker gen) conn
        ≡ go_on (to_recv_root conn gen root) (some (ack_ratchet gen))
  unfolding dispatch handle_master_ratchet next_root
  dispatch-master_ratchet st gen root conn fits e h =
      rw
        (
          handle_master_ratchet,
          parse_ratchet_gen_marker-ratchet_gen_marker gen fits,
          ← e,
          ==_refl gen,
          h,
        )
        refl

  marker-FitsFrame :
      (gen : ℕ) → FitsFrame chan_control frame_master_ratchet (ratchet_gen_marker gen)
  unfolding ratchet_gen_marker encode put_be
  marker-FitsFrame gen = record {
    channel_fits = omega arith;
    type_fits = omega arith;
    text_fits = omega arith;
  }

  abbrev payload : EpochKeys → List ℕ
  payload st = ratchet_gen_marker (next_gen c a)

  module _ (s : Sent) (w : Wrote c a chan_control frame_master_ratchet payload s) (root : List ℕ)
      (derived : tier1 c a ≡ ok root)
      (flow : s.conn.send ≡ next_root root (next_gen c a) a.send) where
    derived-b : ratchet_master_tier1 c b.recv.master (next_gen c a) b.profile ≡ ok root
    derived-b =
        (λ i. ratchet_master_tier1 c (sym sync.agree.master i) (next_gen c a) (sym sync.profile i))
        ∙ derived

    received_ratchet :
        receive_wire c s.wire b
        ≡ go_on
            (to_recv_root (accepted w.st chan_control b) (next_gen c a) root)
            (some (ack_ratchet (next_gen c a)))
    unfolding accepted hold_recv hold bump
    received_ratchet =
        received-dispatch c aead a b chan_control frame_master_ratchet payload s sync w
          (marker-FitsFrame (next_gen c a))
        ∙ dispatch-master_ratchet (bump w.st) (next_gen c a) root (accepted w.st chan_control b)
            (omega arith) (ap (λ (g : ℕ). (g + 1) % 2 ^ 64) sync.agree.gen) derived-b

    rooted-Continues : Continues c aead a b sync s (receive_wire c s.wire b)
    unfolding accepted hold_recv hold next_root
    rooted-Continues = rw received_ratchet (record {
      goes_on = refl;
      still = record {
        profile = w.profile ∙ sync.profile;
        live = sync.live;
        agree =
            rw (w.profile, flow)
              (next_root-Agree c a.profile a.send b.recv root (next_gen c a) sync.agree
                (omega arith));
      };
    })

  pub ratchet_send-Continues :
      (ratchet_send c whole a).failure ≡ none
      → Continues c aead a b sync
          (ratchet_send c whole a)
          (receive_wire c (ratchet_send c whole a).wire b)
  ratchet_send-Continues h =
      let done = ratchet_send-Wrote c a h in
      rooted-Continues (ratchet_send c whole a) done.0 done.1 done.2 done.3

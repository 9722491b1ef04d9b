-- ===== src/Session/Delivery/Rooted.antt =====
-- What RatchetSend has done when it reports no error (impl/go/sdk/ratchet.go).
use npamp_protocol.Session.Delivery.Sealed.{Wrote, given_state-ok, send_state-Has}
use npamp_protocol.Crypto.{Crypto}
use npamp_protocol.KeySchedule.{KeyError, ratchet_master_tier1}
use npamp_protocol.PendingAck.{add_ratchet_ack, remove_ratchet_ack}
use npamp_protocol.Session.Markers.{ratchet_gen_marker, frame_master_ratchet}
use npamp_protocol.Session.Sending.{
  Sent, refused, after_write, given_state, ratchet_send, chan_control, last_seq, to_next_root,
}
use npamp_protocol.Session.State.{
  EpochKeys, Conn, ConnError, sequence_exhausted, hold_send, bump, hold, next_root, send_state,
  or_derive_failed,
}
use npamp_protocol.Session.Wire.{whole, write_wire, seal_with}
use npamp_protocol.Prelude.{ℕ, ◌+◌, ◌%◌, ◌^◌, List, ◌≡◌, refl, ap, ◌∙◌, arith, inl, inr}
use npamp_protocol.Prelude.{◌==◌, if◌then◌else◌, Bool-cases}
use npamp_protocol.Prelude.{none, Result, ok, err}

-- A root that was derived, and the direction that starts from it.
record Rooted (r : Result KeyError (List ℕ)) (wire : List ℕ) (target : ℕ) (conn : Conn) (s : Sent)
    : Type 0 where
  root : List ℕ
  derived : r ≡ ok root
  sealed : s.wire ≡ wire
  profile : s.conn.profile ≡ conn.profile
  flow : s.conn.send ≡ next_root root target conn.send

module _ (c : Crypto) (conn : Conn) where
  abbrev pub next_gen : ℕ
  next_gen = (conn.send.gen + 1) % 2 ^ 64

  ratchet_then : Result KeyError (List ℕ) → EpochKeys → Conn → Sent
  ratchet_then r st conn' =
      let acks = add_ratchet_ack next_gen conn'.pending_mr_ack in
      let wire = seal_with c st chan_control frame_master_ratchet (ratchet_gen_marker next_gen) in
      if st.seq == last_seq
      then refused sequence_exhausted conn'
      else after_write (write_wire whole wire)
          (record conn' { pending_mr_ack = remove_ratchet_ack next_gen acks })
          (to_next_root (hold_send chan_control (bump st) (record conn' { pending_mr_ack = acks }))
            next_gen (or_derive_failed r))

  abbrev rooted : List ℕ → EpochKeys → Conn → Sent
  rooted root st conn' =
      let acks = add_ratchet_ack next_gen conn'.pending_mr_ack in
      let bumped = hold_send chan_control (bump st) (record conn' { pending_mr_ack = acks }) in
      record {
        conn = record bumped { send = next_root root next_gen bumped.send };
        wire = seal_with c st chan_control frame_master_ratchet (ratchet_gen_marker next_gen);
        failure = none;
      }

  ratchet_then-ok :
      (root : List ℕ) (st : EpochKeys) (conn' : Conn)
      → (ratchet_then (ok root) st conn').failure ≡ none
      → ratchet_then (ok root) st conn' ≡ rooted root st conn'
  unfolding ratchet_then write_wire
  ratchet_then-ok root st conn' h = ground arith

  ratchet_then-Rooted :
      (r : Result KeyError (List ℕ)) (st : EpochKeys) (conn' : Conn)
      → (ratchet_then r st conn').failure ≡ none
      → Rooted r
          (seal_with c st chan_control frame_master_ratchet (ratchet_gen_marker next_gen))
          next_gen
          conn'
          (ratchet_then r st conn')
  unfolding ratchet_then write_wire hold_send hold next_root
  ratchet_then-Rooted (err e) st conn' h = absurd (ground arith)
  ratchet_then-Rooted (ok root) st conn' h =
      let e = ratchet_then-ok root st conn' h in
      record {
        root = root;
        derived = refl;
        sealed = ap (λ (s : Sent). s.wire) e;
        profile = ap (λ (s : Sent). s.conn.profile) e;
        flow = ap (λ (s : Sent). s.conn.send) e;
      }

  abbrev pub tier1 : Result KeyError (List ℕ)
  tier1 = ratchet_master_tier1 c conn.send.master next_gen conn.profile

  ratchet_send-live :
      (ratchet_send c whole conn).failure ≡ none
      → ratchet_send c whole conn
        ≡ given_state (send_state c chan_control conn) (λ e. refused e conn) (ratchet_then tier1)
  unfolding ratchet_send ratchet_then
  ratchet_send-live h = elim (Bool-cases conn.closed) [
    | inl e ↦ absurd (let k = rw e at h in cc)
    | inr e ↦ rw e refl
  ]

  pub ratchet_send-Wrote :
      (ratchet_send c whole conn).failure ≡ none
      → (w : Wrote c conn chan_control frame_master_ratchet
          (λ st. ratchet_gen_marker next_gen)
          (ratchet_send c whole conn))
        × (root : List ℕ) × (tier1 ≡ ok root)
        × ((ratchet_send c whole conn).conn.send ≡ next_root root next_gen conn.send)
  unfolding hold_send hold next_root
  ratchet_send-Wrote h =
      let e = ratchet_send-live h in
      let k = rw e at h in
      let g = given_state-ok (send_state c chan_control conn) conn (ratchet_then tier1) k in
      let has = send_state-Has c chan_control conn g.st g.conn g.there in
      let rooted = ratchet_then-Rooted tier1 g.st g.conn (rw g.there at k) in
      let q =
        e
        ∙ ap
            (λ (r : Result ConnError (EpochKeys × Conn)).
              given_state r (λ e'. refused e' conn) (ratchet_then tier1))
            g.there in
      (
        record {
          st = g.st;
          live = has.live;
          keys = has.keys;
          sealed = ap (λ (s : Sent). s.wire) q ∙ rooted.sealed;
          profile =
              ap (λ (s : Sent). s.conn.profile) q
              ∙ rooted.profile
              ∙ ap (λ (k : Conn). k.profile) has.cached;
        },
        rooted.root,
        rooted.derived,
        ap (λ (s : Sent). s.conn.send) q
            ∙ rooted.flow
            ∙ ap (λ (k : Conn). next_root rooted.root next_gen k.send) has.cached,
      )

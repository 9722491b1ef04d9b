-- ===== src/Session/Delivery/Sealed.antt =====
-- What an operation that seals and writes has done when it reports no error (impl/go/sdk/conn.go,
-- keyupdate.go, ratchet.go).
use npamp_protocol.Crypto.{Crypto}
use npamp_protocol.PendingAck.{add_key_update_ack, remove_key_update_ack}
use npamp_protocol.Session.Markers.{key_update_marker}
use npamp_protocol.Session.Sending.{
  Sent, refused, after_write, given_state, send, key_update, last_seq, frame_key_update,
  rotate_send,
}
use npamp_protocol.Session.State.{
  EpochKeys, Conn, ConnError, sequence_exhausted, current, hold_send, bump, hold, advance,
  send_state,
}
use npamp_protocol.Session.Wire.{whole, write_wire, seal_with}
use npamp_protocol.Prelude.{ℕ, ◌+◌, ◌%◌, ◌^◌, List, ◌≡◌, refl, arith, false}
use npamp_protocol.Prelude.{◌==◌, if◌then◌else◌}
use npamp_protocol.Prelude.{Option, none, Result, ok, err}

-- A write that succeeds has written the frame.
pub after_write-whole :
    (wire : List ℕ) (undone : Conn) (done : Conn) (failure : Option ConnError)
    → (after_write (write_wire whole wire) undone (done, failure)).failure ≡ none
    → (failure ≡ none)
      × (after_write (write_wire whole wire) undone (done, failure)
          ≡ record { conn = done; wire = wire; failure = failure })
unfolding write_wire
after_write-whole wire undone done failure h = ground arith

pub record Given (r : Result ConnError (EpochKeys × Conn)) : Type 0 where
  pub st : EpochKeys
  pub conn : Conn
  pub there : r ≡ ok (st, conn)

pub given_state-ok :
    (r : Result ConnError (EpochKeys × Conn)) (conn : Conn) (next : EpochKeys → Conn → Sent)
    → (given_state r (λ e. refused e conn) next).failure ≡ none
    → Given r
given_state-ok (ok (st, conn')) conn next h = record { st = st; conn = conn'; there = refl }
given_state-ok (err e) conn next h = cc

module _ (c : Crypto) (channel : ℕ) (conn : Conn) where
  -- The keys of the channel are there, and are cached.
  pub record Has (st : EpochKeys) (conn' : Conn) : Type 0 where
    pub live : conn.closed ≡ false
    pub keys : current c conn.profile conn.send channel ≡ ok st
    pub cached : conn' ≡ hold_send channel st conn

  pub send_state-Has :
      (st : EpochKeys) (conn' : Conn) → send_state c channel conn ≡ ok (st, conn') → Has st conn'
  unfolding send_state
  send_state-Has st conn' h = ground arith

-- A frame that was sealed under the keys of its channel.
pub record Wrote (c : Crypto) (conn : Conn) (channel ft : ℕ) (payload : EpochKeys → List ℕ)
    (s : Sent) : Type 0 where
  pub st : EpochKeys
  pub live : conn.closed ≡ false
  pub keys : current c conn.profile conn.send channel ≡ ok st
  pub sealed : s.wire ≡ seal_with c st channel ft (payload st)
  pub profile : s.conn.profile ≡ conn.profile

module _ (c : Crypto) (channel ft : ℕ) (payload : List ℕ) (conn : Conn) where
  send_then : EpochKeys → Conn → Sent
  send_then st conn' =
      if st.seq == last_seq
      then refused sequence_exhausted conn'
      else after_write (write_wire whole (seal_with c st channel ft payload)) conn'
          (hold_send channel (bump st) conn', none)

  send_then-ok :
      (st : EpochKeys) (conn' : Conn)
      → (send_then st conn').failure ≡ none
      → send_then st conn' ≡ record {
        conn = hold_send channel (bump st) conn';
        wire = seal_with c st channel ft payload;
        failure = none;
      }
  unfolding send_then write_wire
  send_then-ok st conn' h = ground arith

  pub send-Wrote :
      (send c whole channel ft payload conn).failure ≡ none
      → (w : Wrote c conn channel ft (λ st. payload) (send c whole channel ft payload conn))
        × ((send c whole channel ft payload conn).conn.send
            ≡ hold channel (bump w.st) (hold channel w.st conn.send))
  unfolding send send_then hold_send
  send-Wrote h =
      let g = given_state-ok (send_state c channel conn) conn send_then h in
      let has = send_state-Has c channel conn g.st g.conn g.there in
      let e = send_then-ok g.st g.conn (rw g.there at h) in
      (
        record {
          st = g.st;
          live = has.live;
          keys = has.keys;
          sealed = rw (g.there, e) refl;
          profile = rw (g.there, e, has.cached) refl;
        },
        rw (g.there, e, has.cached) refl,
      )

module _ (c : Crypto) (channel : ℕ) (conn : Conn) where
  abbrev pub rotated : EpochKeys → EpochKeys × Option ConnError
  rotated st = advance c (bump st) conn.send.master conn.send.dir channel conn.profile

  with_ack : ℕ → Conn → Conn
  with_ack announced conn' = record conn' {
    pending_ku_ack = add_key_update_ack channel announced conn'.pending_ku_ack;
  }

  abbrev update_payload : EpochKeys → List ℕ
  update_payload st = key_update_marker ((st.epoch + 1) % 2 ^ 64)

  update_then : EpochKeys → Conn → Sent
  unfolding with_ack
  update_then st conn' =
      let announced = (st.epoch + 1) % 2 ^ 64 in
      after_write
        (write_wire whole (seal_with c st channel frame_key_update (key_update_marker announced)))
        (record conn' {
          pending_ku_ack =
              remove_key_update_ack channel announced (with_ack announced conn').pending_ku_ack;
        })
        (rotate_send c channel (bump st) (with_ack announced conn'))

  pub key_update-Wrote :
      (key_update c whole channel conn).failure ≡ none
      → (w : Wrote c conn channel frame_key_update update_payload (key_update c whole channel conn))
        × ((rotated w.st).1 ≡ none)
        × ((key_update c whole channel conn).conn.send
            ≡ hold channel (rotated w.st).0 (hold channel w.st conn.send))
  unfolding key_update update_then hold_send with_ack hold
  key_update-Wrote h =
      let g = given_state-ok (send_state c channel conn) conn update_then h in
      let has = send_state-Has c channel conn g.st g.conn g.there in
      let e = after_write-whole _ _ _ _ (rw g.there at h) in
      (
        record {
          st = g.st;
          live = has.live;
          keys = has.keys;
          sealed = rw (g.there, e.1) refl;
          profile = rw (g.there, e.1, has.cached) refl;
        },
        rw has.cached at e.0,
        rw (g.there, e.1, has.cached) refl,
      )

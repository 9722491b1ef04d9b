-- ===== src/Session/Interrupted.antt =====
-- A Send whose write stops half way, and the Send after it (impl/go/sdk/conn.go).
use npamp_protocol.Crypto.{Crypto}
use npamp_protocol.Frame.{header_prefix, marshal_header_into, marshal_binary, max_frame_size}
use npamp_protocol.Session.Flows.{current-hold}
use npamp_protocol.Session.Sending.{Sent, send, last_seq}
use npamp_protocol.Session.State.{
  EpochKeys, Conn, current, hold_send, bump, send_state, write_failed,
}
use npamp_protocol.Session.Wire.{whole, stops_at, write_wire, seal_with}
use npamp_protocol.Prelude.{ℕ, ◌≤◌, ◌<◌, ◌≡◌, ◌==◌, ==_refl, refl, ap, ◌∙◌, arith}
use npamp_protocol.Prelude.{List, length, take, none, some, false, ok}
use npamp_protocol.Prelude.Bytes.{put_be}

length-seal_with :
    (c : Crypto) (st : EpochKeys) (channel ft : ℕ) (plaintext : List ℕ)
    → 36 ≤ length (seal_with c st channel ft plaintext)
unfolding seal_with marshal_binary marshal_header_into header_prefix put_be
length-seal_with c st channel ft plaintext = omega arith

module _ (c : Crypto) (channel : ℕ) (st : EpochKeys) (conn : Conn) (live : conn.closed ≡ false)
    (keys : current c conn.profile conn.send channel ≡ ok st) (seq_left : st.seq < last_seq) where
  send_state-ok : send_state c channel conn ≡ ok (st, hold_send channel st conn)
  unfolding send_state
  send_state-ok = rw (live, keys) refl

  left : (st.seq == last_seq) ≡ false
  left = ground arith

  module _ (ft : ℕ) (payload : List ℕ)
      (small : length (seal_with c st channel ft payload) ≤ max_frame_size) where
    sent_whole : send c whole channel ft payload conn ≡ record {
      conn = hold_send channel (bump st) (hold_send channel st conn);
      wire = seal_with c st channel ft payload;
      failure = none;
    }
    unfolding send write_wire
    sent_whole =
        let long = length-seal_with c st channel ft payload in
        rw (send_state-ok, left) (ground arith)

    sent_cut :
        (k : ℕ)
        → send c (stops_at k) channel ft payload conn ≡ record {
          conn = hold_send channel st conn;
          wire = take k (seal_with c st channel ft payload);
          failure = some write_failed;
        }
    unfolding send write_wire
    sent_cut k =
        let long = length-seal_with c st channel ft payload in
        rw (send_state-ok, left) (ground arith)

module _ (c : Crypto) (channel : ℕ) (st : EpochKeys) (conn : Conn) (live : conn.closed ≡ false)
    (keys : current c conn.profile conn.send channel ≡ ok st) (seq_left : st.seq < last_seq)
    (ft ft' : ℕ) (payload payload' : List ℕ)
    (small : length (seal_with c st channel ft payload) ≤ max_frame_size)
    (small' : length (seal_with c st channel ft' payload') ≤ max_frame_size) where
  after : Conn
  unfolding hold_send
  after = hold_send channel st conn

  keys_after : current c after.profile after.send channel ≡ ok st
  unfolding after
  keys_after = rw (current-hold c conn.profile channel st conn.send channel, ==_refl channel) refl

  live_after : after.closed ≡ false
  unfolding after
  live_after = live

  -- A Send on a connection that is not closed, with a sequence number left, whose write stops after k
  -- octets returns an error and leaves k octets of a frame sealed under the current key, IV and
  -- sequence number on the wire; the next Send on the channel that is written seals its own text
  -- under the same key, IV and sequence number.
  pub send-send_cut :
      (k : ℕ)
      → ((send c (stops_at k) channel ft payload conn).wire
          ≡ take k (seal_with c st channel ft payload))
        × ((send c (stops_at k) channel ft payload conn).failure ≡ some write_failed)
        × ((send c whole channel ft' payload'
              (send c (stops_at k) channel ft payload conn).conn).wire
            ≡ seal_with c st channel ft' payload')
  unfolding after
  send-send_cut k =
      let cut = sent_cut c channel st conn live keys seq_left ft payload small k in
      (
        ap (λ (s : Sent). s.wire) cut,
        ap (λ (s : Sent). s.failure) cut,
        ap (λ (s : Sent). (send c whole channel ft' payload' s.conn).wire) cut
            ∙ ap (λ (s : Sent). s.wire)
                (sent_whole c channel st after live_after keys_after seq_left ft' payload' small'),
      )

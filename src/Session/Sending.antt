-- ===== src/Session/Sending.antt =====
-- The operations of a connection that seal and write: Send, KeyUpdate, RatchetSend, ReKEM, and
-- the replies to a peer, of impl/go/sdk (conn.go, keyupdate.go, ratchet.go).
use npamp_protocol.Crypto.{Crypto}
use npamp_protocol.Kem.{KemClient, kem_share_of, encapsulate_with, combined}
use npamp_protocol.KeySchedule.{ratchet_master_tier1, ratchet_master_tier2}
use npamp_protocol.PendingAck.{
  add_key_update_ack, remove_key_update_ack, add_ratchet_ack, remove_ratchet_ack,
}
use npamp_protocol.Session.State.{
  EpochKeys, Conn, PendingRekem, ConnError, closed_conn, sequence_exhausted, rekem_in_flight,
  advance, hold_send, bump, next_root, send_state, close, or_derive_failed,
}
use npamp_protocol.Session.Wire.{Write, write_wire, seal_with}
use npamp_protocol.Session.Markers.{
  key_update_marker, ratchet_gen_marker, encode_rekem, encode_rekem_ack, th_rekem,
  frame_master_ratchet, frame_master_ratchet_ack, frame_rekem, frame_rekem_ack,
}
use npamp_protocol.Prelude.{ℕ, ◌+◌, ◌-◌, ◌%◌, ◌^◌, List, [], Option, none, some, Bool, true, false}
use npamp_protocol.Prelude.{not, ◌==◌, if◌then◌else◌, Result, ok, err}

abbrev pub chan_control : ℕ
chan_control = 0x0000

abbrev pub frame_key_update : ℕ
frame_key_update = 0x0006

abbrev pub frame_key_update_ack : ℕ
frame_key_update_ack = 0x0007

-- `^uint64(0)`
abbrev pub last_seq : ℕ
last_seq = 2 ^ 64 - 1

-- What a call leaves behind: the state, the octets on the wire, and the error.
pub record Sent : Type 0 where
  pub conn : Conn
  pub wire : List ℕ
  pub failure : Option ConnError

abbrev pub refused : ConnError → Conn → Sent
refused e conn = record { conn = conn; wire = []; failure = some e }

-- A reply that is skipped without a trace.
abbrev pub skipped : Conn → Sent
skipped conn = record { conn = conn; wire = []; failure = none }

-- The code after a write, by its outcome.
abbrev pub after_write : List ℕ × Option ConnError → Conn → Conn × Option ConnError → Sent
after_write (out, none) undone (conn, failure) = record {
  conn = conn;
  wire = out;
  failure = failure;
}
after_write (out, some e) undone done = record { conn = undone; wire = out; failure = some e }

abbrev pub given_state :
    Result ConnError (EpochKeys × Conn) → (ConnError → Sent) → (EpochKeys → Conn → Sent) → Sent
given_state (err e) failed next = failed e
given_state (ok (st, conn)) failed next = next st conn

-- `if err != nil { _ = c.Close() }`
abbrev pub or_close_on : Option ConnError → Sent → Sent
or_close_on none s = s
or_close_on (some e) s = record s { conn = close s.conn }

abbrev pub or_close : Sent → Sent
or_close s = or_close_on s.failure s

abbrev pub to_next_root : Conn → ℕ → Result ConnError (List ℕ) → Conn × Option ConnError
to_next_root conn target (err e) = (conn, some e)
to_next_root conn target (ok root) = (record conn { send = next_root root target conn.send }, none)

module _ (c : Crypto) where
  -- sendLocked
  unfoldable pub send : Write → ℕ → ℕ → List ℕ → Conn → Sent
  send w channel ft payload conn =
      given_state (send_state c channel conn) (λ e. refused e conn)
        (λ st conn'.
          if st.seq == last_seq
          then refused sequence_exhausted conn'
          else after_write (write_wire w (seal_with c st channel ft payload)) conn'
              (hold_send channel (bump st) conn', none))

  -- advance of the keys of the channel
  abbrev pub rotate_send : ℕ → EpochKeys → Conn → Conn × Option ConnError
  rotate_send channel st conn =
      let (st', failure) = advance c st conn.send.master conn.send.dir channel conn.profile in
      (hold_send channel st' conn, failure)

  unfoldable pub key_update : Write → ℕ → Conn → Sent
  key_update w channel conn =
      given_state (send_state c channel conn) (λ e. refused e conn)
        (λ st conn'.
          let announced = (st.epoch + 1) % 2 ^ 64 in
          let wire = seal_with c st channel frame_key_update (key_update_marker announced) in
          let acks = add_key_update_ack channel announced conn'.pending_ku_ack in
          after_write (write_wire w wire)
            (record conn' { pending_ku_ack = remove_key_update_ack channel announced acks })
            (rotate_send channel (bump st) (record conn' { pending_ku_ack = acks })))

  -- sendKeyUpdateAck, on its own goroutine
  unfoldable pub send_key_update_ack : Write → ℕ → ℕ → Conn → Sent
  send_key_update_ack w channel epoch conn =
      given_state (send_state c channel conn) (λ e. skipped conn)
        (λ st conn'. or_close (
          after_write
            (write_wire w (seal_with c st channel frame_key_update_ack (key_update_marker epoch)))
            conn' (hold_send channel (bump st) conn', none)))

  unfoldable pub ratchet_send : Write → Conn → Sent
  ratchet_send w conn =
      let target = (conn.send.gen + 1) % 2 ^ 64 in
      if conn.closed
      then refused closed_conn conn
      else given_state (send_state c chan_control conn) (λ e. refused e conn)
          (λ st conn'.
            let wire =
              seal_with c st chan_control frame_master_ratchet (ratchet_gen_marker target) in
            let acks = add_ratchet_ack target conn'.pending_mr_ack in
            if st.seq == last_seq
            then refused sequence_exhausted conn'
            else after_write (write_wire w wire)
                (record conn' { pending_mr_ack = remove_ratchet_ack target acks })
                (to_next_root
                  (hold_send chan_control (bump st) (record conn' { pending_mr_ack = acks })) target
                  (or_derive_failed (ratchet_master_tier1 c conn.send.master target conn.profile))))

  unfoldable pub send_master_ratchet_ack : Write → ℕ → Conn → Sent
  send_master_ratchet_ack w gen conn =
      given_state (send_state c chan_control conn) (λ e. skipped conn)
        (λ st conn'. or_close (
          after_write
            (write_wire w
              (seal_with c st chan_control frame_master_ratchet_ack (ratchet_gen_marker gen)))
            conn' (hold_send chan_control (bump st) conn', none)))

  abbrev pub is_in_flight : Option PendingRekem → Bool
  is_in_flight none = false
  is_in_flight (some p) = true

  -- ReKEM, with the client that it generates
  unfoldable pub rekem : KemClient → Write → Conn → Sent
  rekem client w conn =
      let share = kem_share_of c client in
      let target = (conn.recv.gen + 1) % 2 ^ 64 in
      if is_in_flight conn.pending_rekem
      then refused rekem_in_flight conn
      else if conn.closed
      then refused closed_conn conn
      else given_state (send_state c chan_control conn) (λ e. refused e conn)
          (λ st conn'.
            if st.seq == last_seq
            then refused sequence_exhausted conn'
            else after_write
                (write_wire w (seal_with c st chan_control frame_rekem (encode_rekem share target)))
                conn'
                (
                  record (hold_send chan_control (bump st) conn') {
                    pending_rekem =
                        some (record { client = client; kem_share = share; target_gen = target });
                  },
                  none,
                ))

  -- The part of respondReKEM under the lock.
  unfoldable pub answer_rekem : List ℕ → List ℕ → List ℕ → ℕ → Write → Conn → Sent
  answer_rekem ct new_ss th target w conn =
      if conn.closed
      then skipped conn
      else if not (target == (conn.send.gen + 1) % 2 ^ 64)
      then skipped conn
      else given_state (send_state c chan_control conn) (λ e. skipped conn)
          (λ st conn'. or_close (
            after_write
              (write_wire w
                (seal_with c st chan_control frame_rekem_ack (encode_rekem_ack ct target)))
              conn'
              (to_next_root (hold_send chan_control (bump st) conn') target (
                or_derive_failed
                  (ratchet_master_tier2 c conn.send.master new_ss th conn.profile)))))

  -- respondReKEM, with the randomness of the encapsulation
  unfoldable pub respond_rekem : List ℕ → List ℕ → List ℕ → ℕ → Write → Conn → Sent
  unfolding answer_rekem
  respond_rekem server_x25519 random share target w conn =
      elim (encapsulate_with c share server_x25519 random) [
        | err e ↦ skipped conn
        | ok (ct, ss) ↦ elim (th_rekem c conn.profile share ct target) [
          | err e ↦ skipped conn
          | ok th ↦ answer_rekem ct (combined ss) th target w conn
        ]
      ]

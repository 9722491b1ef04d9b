-- ===== src/Session/Handlers.antt =====
-- What a received frame makes the receiver do: the handlers of keyupdate.go and ratchet.go and the
-- actions of recvLocked in conn.go (impl/go/sdk). Replies that run on goroutines of their own are
-- tasks.
use npamp_protocol.Crypto.{Crypto}
use npamp_protocol.ErrorFrame.{unexpected_message, key_update_out_of_order}
use npamp_protocol.Kem.{shared_secrets, combined}
use npamp_protocol.KeySchedule.{ratchet_master_tier1, ratchet_master_tier2}
use npamp_protocol.PendingAck.{consume_key_update_ack, consume_ratchet_ack}
use npamp_protocol.Session.State.{
  EpochKeys, Conn, PendingRekem, ConnError, out_of_order, wrong_generation, unsolicited,
  unsolicited_rekem_ack, derive_failed, kem_failed, advance, hold_recv, next_root,
}
use npamp_protocol.Session.Markers.{
  parse_key_update_marker, parse_ratchet_gen_marker, parse_rekem, parse_rekem_ack, th_rekem,
}
use npamp_protocol.Prelude.{ℕ, ◌+◌, ◌%◌, ◌^◌, List, Option, none, some}
use npamp_protocol.Prelude.{not, ◌||◌, ◌==◌, if◌then◌else◌, ok, err}

pub data Task : Type 0 where
  ack_key_update : ℕ → ℕ → Task
  ack_ratchet : ℕ → Task
  reply_to_rekem : List ℕ → ℕ → Task

-- recvAction; `deliver` and `fail` are actDeliver without and with an error.
pub data Action : Type 0 where
  deliver : ℕ → ℕ → List ℕ → Action
  fail : ConnError → Action
  emit_error : ℕ → ConnError → Action
  close_ack : Action
  peer_error : ConnError → Action

-- One round of the loop of recvLocked; without an action the loop goes on.
pub record Round : Type 0 where
  pub conn : Conn
  pub task : Option Task
  pub action : Option Action

abbrev pub go_on : Conn → Option Task → Round
go_on conn task = record { conn = conn; task = task; action = none }

abbrev pub stop_with : Action → Conn → Round
stop_with action conn = record { conn = conn; task = none; action = some action }

unfoldable pub drop_unauthenticated : Conn → Round
drop_unauthenticated conn =
    go_on (record conn { dropped_unauthenticated = (conn.dropped_unauthenticated + 1) % 2 ^ 64 })
      none

unfoldable pub drop_out_of_sequence : Conn → Round
drop_out_of_sequence conn =
    go_on (record conn { dropped_out_of_sequence = (conn.dropped_out_of_sequence + 1) % 2 ^ 64 })
      none

abbrev pub go_on_unless : Option ConnError → Conn → Task → Round
go_on_unless none conn task = go_on conn (some task)
go_on_unless (some e) conn task = stop_with (fail e) conn

abbrev pub to_recv_root : Conn → ℕ → List ℕ → Conn
to_recv_root conn gen root = record conn { recv = next_root root gen conn.recv }

module _ (c : Crypto) where
  -- handleKeyUpdate, and the reaction of recvLocked to its errors
  unfoldable pub handle_key_update : ℕ → EpochKeys → List ℕ → Conn → Round
  handle_key_update channel st plaintext conn = elim (parse_key_update_marker plaintext) [
    | err e ↦ stop_with (emit_error key_update_out_of_order out_of_order) conn
    | ok next ↦
        if not (next == (st.epoch + 1) % 2 ^ 64)
        then stop_with (emit_error key_update_out_of_order out_of_order) conn
        else let (st', failure) =
            advance c st conn.recv.master conn.recv.dir channel conn.profile in
          go_on_unless failure (hold_recv channel st' conn) (ack_key_update channel next)
  ]

  unfoldable pub handle_key_update_ack : ℕ → List ℕ → Conn → Round
  handle_key_update_ack channel plaintext conn = elim (parse_key_update_marker plaintext) [
    | err e ↦ stop_with (emit_error key_update_out_of_order out_of_order) conn
    | ok epoch ↦
        let (acks, solicited) = consume_key_update_ack channel epoch conn.pending_ku_ack in
        if solicited
        then go_on (record conn { pending_ku_ack = acks }) none
        else stop_with (emit_error unexpected_message unsolicited) conn
  ]

  unfoldable pub handle_master_ratchet : List ℕ → Conn → Round
  handle_master_ratchet plaintext conn = elim (parse_ratchet_gen_marker plaintext) [
    | err e ↦ stop_with (fail e) conn
    | ok next ↦
        if not (next == (conn.recv.gen + 1) % 2 ^ 64)
        then stop_with (fail wrong_generation) conn
        else elim (ratchet_master_tier1 c conn.recv.master next conn.profile) [
          | err e ↦ stop_with (fail (derive_failed e)) conn
          | ok root ↦ go_on (to_recv_root conn next root) (some (ack_ratchet next))
        ]
  ]

  unfoldable pub handle_master_ratchet_ack : List ℕ → Conn → Round
  handle_master_ratchet_ack plaintext conn = elim (parse_ratchet_gen_marker plaintext) [
    | err e ↦ stop_with (fail e) conn
    | ok gen ↦
        let (acks, solicited) = consume_ratchet_ack gen conn.pending_mr_ack in
        if solicited
        then go_on (record conn { pending_mr_ack = acks }) none
        else stop_with (emit_error unexpected_message unsolicited) conn
  ]

  unfoldable pub handle_rekem : List ℕ → Conn → Round
  handle_rekem plaintext conn = elim (parse_rekem plaintext) [
    | err e ↦ stop_with (fail e) conn
    | ok (share, target) ↦ go_on conn (some (reply_to_rekem share target))
  ]

  -- handleReKEMAck after the test of the generations
  unfoldable pub finish_rekem : PendingRekem → List ℕ → ℕ → Conn → Round
  finish_rekem pend ct gen conn = elim (shared_secrets c pend.client ct) [
    | err e ↦ stop_with (fail (kem_failed e)) conn
    | ok ss ↦ elim (th_rekem c conn.profile pend.kem_share ct gen) [
      | err e ↦ stop_with (fail (derive_failed e)) conn
      | ok th ↦ elim (ratchet_master_tier2 c conn.recv.master (combined ss) th conn.profile) [
        | err e ↦ stop_with (fail (derive_failed e)) conn
        | ok root ↦ go_on (to_recv_root conn gen root) none
      ]
    ]
  ]

  abbrev pub given_pending : Option PendingRekem → List ℕ → ℕ → Conn → Round
  given_pending none ct gen conn =
      stop_with (emit_error unexpected_message unsolicited_rekem_ack) conn
  given_pending (some pend) ct gen conn =
      if not (gen == (conn.recv.gen + 1) % 2 ^ 64) || not (gen == pend.target_gen)
      then stop_with (fail wrong_generation) conn
      else finish_rekem pend ct gen conn

  unfoldable pub handle_rekem_ack : List ℕ → Conn → Round
  handle_rekem_ack plaintext conn = elim (parse_rekem_ack plaintext) [
    | err e ↦ stop_with (fail e) conn
    | ok (ct, gen) ↦ given_pending conn.pending_rekem ct gen (record conn { pending_rekem = none })
  ]

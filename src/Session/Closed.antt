-- ===== src/Session/Closed.antt =====
-- A connection that is closed (conn.go, keyupdate.go, ratchet.go and close.go of impl/go/sdk).
use Prim.Native.Nat.{bit_and}
use npamp_protocol.Crypto.{Crypto}
use npamp_protocol.Frame.{Frame, flag_enc, unmarshal_binary}
use npamp_protocol.Kem.{KemClient, encapsulate_with, combined}
use npamp_protocol.Session.Closing.{send_session_error, send_close_ack, send_close}
use npamp_protocol.Session.Handlers.{
  Round, Action, deliver, fail, emit_error, close_ack, peer_error, stop_with, drop_unauthenticated,
}
use npamp_protocol.Session.Markers.{th_rekem}
use npamp_protocol.Session.Receiving.{receive_wire, receive_frame, receive_sealed}
use npamp_protocol.Session.Sending.{
  Sent, send, key_update, send_key_update_ack, ratchet_send, send_master_ratchet_ack, rekem,
  answer_rekem, respond_rekem, is_in_flight,
}
use npamp_protocol.Session.State.{Conn, closed_conn, send_state, recv_state}
use npamp_protocol.Session.Wire.{Write}
use npamp_protocol.Prelude.{ℕ, List, [], ◌∷◌, ◌≡◌, refl, inl, inr}
use npamp_protocol.Prelude.{Option, none, some, true, ◌==◌, Bool-cases}
use npamp_protocol.Prelude.{err, Result-cases}

-- Every operation that seals a frame and writes it.
pub data Operation : Type 0 where
  sending : ℕ → ℕ → List ℕ → Operation
  updating_key : ℕ → Operation
  acknowledging_key_update : ℕ → ℕ → Operation
  ratcheting : Operation
  acknowledging_ratchet : ℕ → Operation
  starting_rekem : KemClient → Operation
  answering_rekem : List ℕ → List ℕ → List ℕ → ℕ → Operation
  reporting_error : ℕ → Operation
  acknowledging_close : Operation
  starting_close : Operation

-- What a round hands to the caller of Recv.
abbrev pub handed_on : Option Action → List (ℕ × ℕ × List ℕ)
handed_on none = []
handed_on (some (deliver channel ft payload)) = (channel, ft, payload) ∷ []
handed_on (some (fail e)) = []
handed_on (some (emit_error code e)) = []
handed_on (some close_ack) = []
handed_on (some (peer_error e)) = []

module _ (c : Crypto) where
  unfoldable pub operate : Operation → Write → Conn → Sent
  operate (sending channel ft payload) w conn = send c w channel ft payload conn
  operate (updating_key channel) w conn = key_update c w channel conn
  operate (acknowledging_key_update channel epoch) w conn =
      send_key_update_ack c w channel epoch conn
  operate ratcheting w conn = ratchet_send c w conn
  operate (acknowledging_ratchet gen) w conn = send_master_ratchet_ack c w gen conn
  operate (starting_rekem client) w conn = rekem c client w conn
  operate (answering_rekem key random share target) w conn =
      respond_rekem c key random share target w conn
  operate (reporting_error code) w conn = send_session_error c w code conn
  operate acknowledging_close w conn = send_close_ack c w conn
  operate starting_close w conn = send_close c w conn

  -- Nothing goes out, and the state stays as it is.
  pub record IsSilent (before : Conn) (s : Sent) : Type 0 where
    pub wire : s.wire ≡ []
    pub conn : s.conn ≡ before

  module _ (w : Write) (before : Conn) (closed : before.closed ≡ true) where
    no_send_state : (channel : ℕ) → send_state c channel before ≡ err closed_conn
    unfolding send_state
    no_send_state channel = rw closed refl

    no_recv_state : (channel : ℕ) → recv_state c channel before ≡ err closed_conn
    unfolding recv_state
    no_recv_state channel = rw closed refl

    answer-IsSilent :
        (ct new_ss th : List ℕ) (target : ℕ)
        → IsSilent before (answer_rekem c ct new_ss th target w before)
    unfolding answer_rekem
    answer-IsSilent ct new_ss th target = rw closed (record { wire = refl; conn = refl })

    respond-IsSilent :
        (key random share : List ℕ) (target : ℕ)
        → IsSilent before (respond_rekem c key random share target w before)
    unfolding respond_rekem
    respond-IsSilent key random share target =
        elim (Result-cases (encapsulate_with c share key random)) [
          | inr (e, p) ↦ rw (respond_rekem, p) (record { wire = refl; conn = refl })
          | inl ((ct, ss), p) ↦
              rw (respond_rekem, p)
                (elim (Result-cases (th_rekem c before.profile share ct target)) [
                  | inr (e, q) ↦ rw q (record { wire = refl; conn = refl })
                  | inl (th, q) ↦ rw q (answer-IsSilent ct (combined ss) th target)
                ])
        ]

    rekem-IsSilent : (client : KemClient) → IsSilent before (rekem c client w before)
    unfolding rekem
    rekem-IsSilent client = elim (Bool-cases (is_in_flight c before.pending_rekem)) [
      | inl e ↦ rw e (record { wire = refl; conn = refl })
      | inr e ↦ rw (e, closed) (record { wire = refl; conn = refl })
    ]

    pub operate-IsSilent : (op : Operation) → IsSilent before (operate op w before)
    unfolding operate send key_update send_key_update_ack ratchet_send send_master_ratchet_ack
        send_session_error send_close_ack send_close
    operate-IsSilent (sending channel ft payload) =
        rw (no_send_state channel) (record { wire = refl; conn = refl })
    operate-IsSilent (updating_key channel) =
        rw (no_send_state channel) (record { wire = refl; conn = refl })
    operate-IsSilent (acknowledging_key_update channel epoch) =
        rw (no_send_state channel) (record { wire = refl; conn = refl })
    operate-IsSilent ratcheting = rw closed (record { wire = refl; conn = refl })
    operate-IsSilent (acknowledging_ratchet gen) =
        rw (no_send_state 0) (record { wire = refl; conn = refl })
    operate-IsSilent (starting_rekem client) = rekem-IsSilent client
    operate-IsSilent (answering_rekem key random share target) =
        respond-IsSilent key random share target
    operate-IsSilent (reporting_error code) =
        rw (no_send_state 0) (record { wire = refl; conn = refl })
    operate-IsSilent acknowledging_close =
        rw (no_send_state 0) (record { wire = refl; conn = refl })
    operate-IsSilent starting_close = rw closed (record { wire = refl; conn = refl })

    sealed-closed :
        (f : Frame)
        → receive_sealed c f (recv_state c f.channel before) before
          ≡ stop_with (fail closed_conn) before
    unfolding receive_sealed
    sealed-closed f = rw (no_recv_state f.channel) refl

    -- A closed receiver hands nothing on, and stays closed.
    pub record IsDeaf (r : Round) : Type 0 where
      pub handed : handed_on r.action ≡ []
      pub still : r.conn.closed ≡ true

    frame-IsDeaf : (f : Frame) → IsDeaf (receive_frame c f before)
    unfolding receive_frame drop_unauthenticated
    frame-IsDeaf f = elim (Bool-cases (bit_and f.flags flag_enc == 0)) [
      | inl e ↦ rw e (record { handed = refl; still = closed })
      | inr e ↦ rw (e, sealed-closed f) (record { handed = refl; still = closed })
    ]

    pub receive_wire-IsDeaf : (wire : List ℕ) → IsDeaf (receive_wire c wire before)
    unfolding receive_wire
    receive_wire-IsDeaf wire = elim (Result-cases (unmarshal_binary wire)) [
      | inl (f, e) ↦ rw (receive_wire, e) (frame-IsDeaf f)
      | inr (e, p) ↦ rw (receive_wire, p) (record { handed = refl; still = closed })
    ]

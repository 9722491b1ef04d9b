-- ===== src/Session/Delivery/Accepting.antt =====
-- The receiver on a frame that is sealed under its current keys (recvLocked of impl/go/sdk/conn.go).
use Prim.Native.Nat.{bit_and}
use npamp_protocol.Crypto.{Crypto}
use npamp_protocol.Frame.{Frame, flag_enc, unmarshal_binary}
use npamp_protocol.Session.Receiving.{
  dispatch, receive_opened, receive_sealed, receive_frame, receive_wire,
}
use npamp_protocol.Session.Sealing.{IsSealed}
use npamp_protocol.Session.State.{EpochKeys, Conn, ConnError, current, hold_recv, bump, recv_state}
use npamp_protocol.Session.Wire.{open_with}
use npamp_protocol.Prelude.{
  ℕ, List, ◌≡◌, refl, ap, ◌∙◌, false, ◌==◌, ==_refl, ok, some, Option, Result,
}

module _ (c : Crypto) (f : Frame) (conn : Conn) where
  pub receive_wire-parsed :
      (wire : List ℕ)
      → unmarshal_binary wire ≡ ok f
      → receive_wire c wire conn ≡ receive_frame c f conn
  unfolding receive_wire
  receive_wire-parsed wire h = rw (receive_wire, h) refl

  pub receive_frame-encrypted :
      (bit_and f.flags flag_enc == 0) ≡ false
      → receive_frame c f conn ≡ receive_sealed c f (recv_state c f.channel conn) conn
  unfolding receive_frame
  receive_frame-encrypted h = rw h refl

  pub receive_sealed-in_sequence :
      (st : EpochKeys) (conn' : Conn)
      → f.seq ≡ st.seq
      → receive_sealed c f (ok (st, conn')) conn ≡ receive_opened c f st (open_with c st f) conn'
  unfolding receive_sealed
  receive_sealed-in_sequence st conn' h = rw (h, ==_refl st.seq) refl

module _ (c : Crypto) (st : EpochKeys) (channel : ℕ) (conn : Conn) where
  pub recv_state-ok :
      conn.closed ≡ false
      → current c conn.profile conn.recv channel ≡ ok st
      → recv_state c channel conn ≡ ok (st, hold_recv channel st conn)
  unfolding recv_state
  recv_state-ok live keys = rw (live, keys) refl

-- The state after an accepted frame, before its handler runs.
unfoldable pub accepted : EpochKeys → ℕ → Conn → Conn
accepted st channel conn = hold_recv channel (bump st) (hold_recv channel st conn)

module _ (c : Crypto) (st : EpochKeys) (channel ft : ℕ) (plaintext wire : List ℕ)
    (conn : Conn) where
  opened-dispatch :
      (f : Frame)
      → f.type ≡ ft
      → f.channel ≡ channel
      → receive_opened c f st (some plaintext) (hold_recv channel st conn)
        ≡ dispatch c ft channel (bump st) plaintext (accepted st channel conn)
  unfolding receive_opened accepted
  opened-dispatch f e e' = λ i.
      dispatch c (e i) (e' i) (bump st) plaintext
        (hold_recv (e' i) (bump st) (hold_recv channel st conn))

  pub receive_wire-sealed :
      conn.closed ≡ false
      → current c conn.profile conn.recv channel ≡ ok st
      → IsSealed c st channel ft plaintext wire
      → receive_wire c wire conn
        ≡ dispatch c ft channel (bump st) plaintext (accepted st channel conn)
  receive_wire-sealed live keys s =
      receive_wire-parsed c s.frame conn wire s.parsed
      ∙ receive_frame-encrypted c s.frame conn (rw s.flags refl)
      ∙ ap (λ (n : ℕ). receive_sealed c s.frame (recv_state c n conn) conn) s.on_channel
      ∙ ap (λ (r : Result ConnError (EpochKeys × Conn)). receive_sealed c s.frame r conn)
          (recv_state-ok c st channel conn live keys)
      ∙ receive_sealed-in_sequence c s.frame conn st (hold_recv channel st conn) s.in_sequence
      ∙ ap (λ (o : Option (List ℕ)). receive_opened c s.frame st o (hold_recv channel st conn))
          s.opened
      ∙ opened-dispatch s.frame s.of_type s.on_channel

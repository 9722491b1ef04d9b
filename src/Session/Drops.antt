-- ===== src/Session/Drops.antt =====
-- Frames that the receiver drops (recvLocked of impl/go/sdk/conn.go): cleartext, out of sequence, or
-- with a tag that fails.
use Prim.Native.Nat.{bit_and}
use npamp_protocol.Crypto.{Crypto}
use npamp_protocol.Frame.{Frame, flag_enc, unmarshal_binary}
use npamp_protocol.Session.Delivery.Accepting.{
  receive_wire-parsed, receive_frame-encrypted, receive_sealed-in_sequence, recv_state-ok,
}
use npamp_protocol.Session.Flows.{current-cached}
use npamp_protocol.Session.Handlers.{Round, drop_unauthenticated, drop_out_of_sequence}
use npamp_protocol.Session.Receiving.{receive_frame, receive_sealed, receive_opened, receive_wire}
use npamp_protocol.Session.State.{EpochKeys, Conn, ConnError, current, hold_recv, hold}
use npamp_protocol.Session.Wire.{open_with}
use npamp_protocol.Prelude.{ℕ, ◌+◌, ◌%◌, ◌^◌, ◌≡◌, ◌≢◌, ◌⊎◌, inl, inr, refl, ap, ◌∙◌, arith}
use npamp_protocol.Prelude.{List, Option, none, true, false, ◌==◌, Bool-cases, ==_iff, ok, Result}

-- Why a frame is dropped under the keys of its channel.
abbrev pub IsDroppable : Crypto → EpochKeys → Frame → Type 0
IsDroppable c st f = (bit_and f.flags flag_enc ≡ 0) ⊎ ((f.seq ≢ st.seq) ⊎ (open_with c st f ≡ none))

-- A frame that the receiver of the state `b` drops.
pub record IsNoise (c : Crypto) (b : Conn) (wire : List ℕ) : Type 0 where
  pub frame : Frame
  pub st : EpochKeys
  pub parsed : unmarshal_binary wire ≡ ok frame
  pub keys : current c b.profile b.recv frame.channel ≡ ok st
  pub droppable : IsDroppable c st frame

-- A dropped frame: nothing happens but a count, and the cache of derived keys may grow.
pub record Dropped (c : Crypto) (b : Conn) (r : Round) : Type 0 where
  pub action : r.action ≡ none
  pub task : r.task ≡ none
  pub keys :
      (channel : ℕ) → current c b.profile r.conn.recv channel ≡ current c b.profile b.recv channel
  pub master : r.conn.recv.master ≡ b.recv.master
  pub gen : r.conn.recv.gen ≡ b.recv.gen
  pub dir : r.conn.recv.dir ≡ b.recv.dir
  pub same : r.conn ≡ record b {
    recv = r.conn.recv;
    dropped_unauthenticated = r.conn.dropped_unauthenticated;
    dropped_out_of_sequence = r.conn.dropped_out_of_sequence;
  }
  pub counted :
      ((r.conn.dropped_unauthenticated ≡ (b.dropped_unauthenticated + 1) % 2 ^ 64)
        × (r.conn.dropped_out_of_sequence ≡ b.dropped_out_of_sequence))
      ⊎ ((r.conn.dropped_unauthenticated ≡ b.dropped_unauthenticated)
          × (r.conn.dropped_out_of_sequence ≡ (b.dropped_out_of_sequence + 1) % 2 ^ 64))

module _ (c : Crypto) (b : Conn) where
  unauthenticated-Dropped : Dropped c b (drop_unauthenticated b)
  unfolding drop_unauthenticated
  unauthenticated-Dropped = record {
    action = refl;
    task = refl;
    keys = λ channel. refl;
    master = refl;
    gen = refl;
    dir = refl;
    same = refl;
    counted = inl (refl, refl);
  }

  module _ (channel : ℕ) (st : EpochKeys) (keys : current c b.profile b.recv channel ≡ ok st) where
    cached_unauthenticated-Dropped : Dropped c b (drop_unauthenticated (hold_recv channel st b))
    unfolding drop_unauthenticated hold_recv hold
    cached_unauthenticated-Dropped = record {
      action = refl;
      task = refl;
      keys = λ other. current-cached c b.profile channel st b.recv other keys;
      master = refl;
      gen = refl;
      dir = refl;
      same = refl;
      counted = inl (refl, refl);
    }

    cached_out_of_sequence-Dropped : Dropped c b (drop_out_of_sequence (hold_recv channel st b))
    unfolding drop_out_of_sequence hold_recv hold
    cached_out_of_sequence-Dropped = record {
      action = refl;
      task = refl;
      keys = λ other. current-cached c b.profile channel st b.recv other keys;
      master = refl;
      gen = refl;
      dir = refl;
      same = refl;
      counted = inr (refl, refl);
    }

module _ (c : Crypto) (b : Conn) (f : Frame) (st : EpochKeys) where
  frame_cleartext :
      (bit_and f.flags flag_enc == 0) ≡ true → receive_frame c f b ≡ drop_unauthenticated b
  unfolding receive_frame
  frame_cleartext h = rw h refl

  sealed_out_of_sequence :
      (conn : Conn)
      → (f.seq == st.seq) ≡ false
      → receive_sealed c f (ok (st, conn)) b ≡ drop_out_of_sequence conn
  unfolding receive_sealed
  sealed_out_of_sequence conn h = rw h refl

  opened_none : (conn : Conn) → receive_opened c f st none conn ≡ drop_unauthenticated conn
  unfolding receive_opened
  opened_none conn = refl

  tag_fails :
      IsDroppable c st f
      → (bit_and f.flags flag_enc == 0) ≡ false
      → (f.seq == st.seq) ≡ true
      → open_with c st f ≡ none
  tag_fails (inl e) h k = absurd (ground arith)
  tag_fails (inr (inl n)) h k = absurd (n ((==_iff f.seq st.seq).0 k))
  tag_fails (inr (inr e)) h k = e

  module _ (live : b.closed ≡ false) (keys : current c b.profile b.recv f.channel ≡ ok st) where
    receive_frame-sealed :
        (bit_and f.flags flag_enc == 0) ≡ false
        → receive_frame c f b ≡ receive_sealed c f (ok (st, hold_recv f.channel st b)) b
    receive_frame-sealed h =
        receive_frame-encrypted c f b h
        ∙ ap (λ (r : Result ConnError (EpochKeys × Conn)). receive_sealed c f r b)
            (recv_state-ok c st f.channel b live keys)

    receive_frame-Dropped : IsDroppable c st f → Dropped c b (receive_frame c f b)
    receive_frame-Dropped why = elim (Bool-cases (bit_and f.flags flag_enc == 0)) [
      | inl e ↦ rw (frame_cleartext e) (unauthenticated-Dropped c b)
      | inr e ↦ rw (receive_frame-sealed e) (elim (Bool-cases (f.seq == st.seq)) [
        | inl k ↦
            let none_opens =
              ap (λ (o : Option (List ℕ)). receive_opened c f st o (hold_recv f.channel st b))
                (tag_fails why e k)
              ∙ opened_none (hold_recv f.channel st b) in
            rw
              (
                receive_sealed-in_sequence c f b st (hold_recv f.channel st b)
                    ((==_iff f.seq st.seq).0 k),
                none_opens,
              )
              (cached_unauthenticated-Dropped c b f.channel st keys)
        | inr k ↦
            rw (sealed_out_of_sequence (hold_recv f.channel st b) k)
              (cached_out_of_sequence-Dropped c b f.channel st keys)
      ])
    ]

-- A frame that is in cleartext, out of sequence or has a tag that fails under the keys of its channel
-- does nothing to a connection that is not closed, but raise one of the two counts by one: no
-- reaction, no reply, the same keys for every channel, and the rest of the state as it was.
pub receive_wire-Dropped :
    (c : Crypto) (b : Conn) (wire : List ℕ)
    → b.closed ≡ false
    → IsNoise c b wire
    → Dropped c b (receive_wire c wire b)
receive_wire-Dropped c b wire live n =
    rw (receive_wire-parsed c n.frame b wire n.parsed)
      (receive_frame-Dropped c b n.frame n.st live n.keys n.droppable)

-- ===== src/Session/Healing/Asking.antt =====
-- ReKEM at one end, and REKEM at the other (impl/go/sdk/ratchet.go).
use npamp_protocol.Crypto.{Crypto, IsAead, IsKem}
use npamp_protocol.Kem.{KemClient, kem_share_of, kem_share_size}
use npamp_protocol.Session.Delivery.Accepting.{accepted}
use npamp_protocol.Session.Delivery.Sealed.{Wrote, given_state-ok, send_state-Has}
use npamp_protocol.Session.Delivery.Steps.{InSync, received-dispatch, accepted-Agree}
use npamp_protocol.Session.Handlers.{handle_rekem, reply_to_rekem, go_on}
use npamp_protocol.Session.MarkerRoundTrip.{parse_rekem-encode_rekem}
use npamp_protocol.Session.Markers.{encode_rekem, frame_rekem}
use npamp_protocol.Session.Receiving.{dispatch, receive_wire}
use npamp_protocol.Session.Sealing.{FitsFrame}
use npamp_protocol.Session.Sending.{
  Sent, refused, after_write, given_state, rekem, is_in_flight, chan_control, last_seq,
}
use npamp_protocol.Session.State.{
  EpochKeys, Conn, PendingRekem, hold_recv, ConnError, sequence_exhausted, current, hold_send, bump,
  send_state,
}
use npamp_protocol.Session.Wire.{whole, write_wire, seal_with}
use npamp_protocol.Tlv.Encode.{length-encode_onto}
use npamp_protocol.Prelude.{
  ℕ, ◌+◌, ◌%◌, ◌^◌, ◌<◌, ◌==◌, List, length, length-append, ◌≡◌, refl, ap, ◌∙◌, arith,
}
use npamp_protocol.Prelude.{inl, inr, Bool-cases, false, none, some, ok, Result, if◌then◌else◌}
use npamp_protocol.Prelude.Bytes.{length-put_be}

module _ (c : Crypto) (client : KemClient) (a : Conn) where
  abbrev pub target : ℕ
  target = (a.recv.gen + 1) % 2 ^ 64

  abbrev pub pending : PendingRekem
  pending = record { client = client; kem_share = kem_share_of c client; target_gen = target }

  -- The state after the request.
  abbrev pub asking : EpochKeys → Conn → Conn
  asking st conn = record (hold_send chan_control (bump st) conn) { pending_rekem = some pending }

  ask_then : EpochKeys → Conn → Sent
  ask_then st conn =
      let wire =
        seal_with c st chan_control frame_rekem (encode_rekem (kem_share_of c client) target) in
      if st.seq == last_seq
      then refused sequence_exhausted conn
      else after_write (write_wire whole wire) conn (asking st conn, none)

  ask_then-ok :
      (st : EpochKeys) (conn : Conn)
      → (ask_then st conn).failure ≡ none
      → ask_then st conn ≡ record {
        conn = asking st conn;
        wire =
            seal_with c st chan_control frame_rekem (encode_rekem (kem_share_of c client) target);
        failure = none;
      }
  unfolding ask_then write_wire
  ask_then-ok st conn h = ground arith

  rekem-live :
      (rekem c client whole a).failure ≡ none
      → rekem c client whole a
        ≡ given_state (send_state c chan_control a) (λ e. refused e a) ask_then
  unfolding rekem ask_then
  rekem-live h = elim (Bool-cases (is_in_flight c a.pending_rekem)) [
    | inl e ↦ absurd (let k = rw e at h in cc)
    | inr e ↦ elim (Bool-cases a.closed) [
      | inl k ↦ absurd (let l = rw (e, k) at h in cc)
      | inr k ↦ rw (e, k) refl
    ]
  ]

  -- A request that was written.
  pub record Asked : Type 0 where
    pub st : EpochKeys
    pub live : a.closed ≡ false
    pub keys : current c a.profile a.send chan_control ≡ ok st
    pub sent : rekem c client whole a ≡ record {
      conn = asking st (hold_send chan_control st a);
      wire = seal_with c st chan_control frame_rekem (encode_rekem (kem_share_of c client) target);
      failure = none;
    }

  pub rekem-Asked : (rekem c client whole a).failure ≡ none → Asked
  rekem-Asked h =
      let e = rekem-live h in
      let k = rw e at h in
      let g = given_state-ok (send_state c chan_control a) a ask_then k in
      let has = send_state-Has c chan_control a g.st g.conn g.there in
      record {
        st = g.st;
        live = has.live;
        keys = has.keys;
        sent =
            e
            ∙ ap
                (λ (r : Result ConnError (EpochKeys × Conn)).
                  given_state r (λ e'. refused e' a) ask_then)
                g.there
            ∙ ask_then-ok g.st g.conn (rw g.there at k)
            ∙ ap
                (λ (conn : Conn). record {
                  conn = asking g.st conn;
                  wire =
                      seal_with c g.st chan_control frame_rekem
                        (encode_rekem (kem_share_of c client) target);
                  failure = none;
                })
                has.cached;
      }

module _ (c : Crypto) (aead : IsAead c) (kem : IsKem c) (client : KemClient) (a b : Conn) where
  length-share : length (kem_share_of c client) ≡ kem_share_size
  unfolding kem_share_of
  length-share = omega (
    arith,
    length-append (c.mlkem_public client.mlkem_key) (c.x25519_public client.x25519_key),
    kem.length-public client.mlkem_key,
    kem.length-x25519_public client.x25519_key,
  )

  share-FitsFrame :
      (gen : ℕ) → FitsFrame chan_control frame_rekem (encode_rekem (kem_share_of c client) gen)
  unfolding encode_rekem
  share-FitsFrame gen = record {
    channel_fits = omega arith;
    type_fits = omega arith;
    text_fits =
        rw (length-encode_onto _ _, length-encode_onto _ _)
          (omega (arith, length-share, length-put_be 8 gen));
  }

  dispatch-rekem :
      (st : EpochKeys) (gen : ℕ) (conn : Conn)
      → gen < 2 ^ 64
      → dispatch c frame_rekem chan_control st (encode_rekem (kem_share_of c client) gen) conn
        ≡ go_on conn (some (reply_to_rekem (kem_share_of c client) gen))
  unfolding dispatch handle_rekem
  dispatch-rekem st gen conn h =
      rw (handle_rekem, parse_rekem-encode_rekem (kem_share_of c client) gen length-share h) refl

  -- The other end starts an answer, and is in step.
  pub record Requested (asked : Asked c client a) : Type 0 where
    pub round :
        receive_wire c (rekem c client whole a).wire b
        ≡ go_on
            (accepted asked.st chan_control b)
            (some (reply_to_rekem (kem_share_of c client) (target c client a)))
    pub sync : InSync c (rekem c client whole a).conn (accepted asked.st chan_control b)

  module _ (sync : InSync c a b) (asked : Asked c client a) where
    abbrev payload : EpochKeys → List ℕ
    payload st = encode_rekem (kem_share_of c client) (target c client a)

    wrote : Wrote c a chan_control frame_rekem payload (rekem c client whole a)
    unfolding hold_send
    wrote = record {
      st = asked.st;
      live = asked.live;
      keys = asked.keys;
      sealed = ap (λ (s : Sent). s.wire) asked.sent;
      profile = ap (λ (s : Sent). s.conn.profile) asked.sent;
    }

    pub asked-Requested : Requested asked
    unfolding wrote accepted hold_send hold_recv
    asked-Requested = record {
      round =
          received-dispatch c aead a b chan_control frame_rekem payload (rekem c client whole a)
            sync wrote (share-FitsFrame (target c client a))
          ∙ dispatch-rekem (bump asked.st) (target c client a) (accepted asked.st chan_control b)
              (omega arith);
      sync = rw asked.sent (record {
        profile = sync.profile;
        live = sync.live;
        agree =
            accepted-Agree c aead a b chan_control frame_rekem payload (rekem c client whole a) sync
              wrote (share-FitsFrame (target c client a));
      });
    }

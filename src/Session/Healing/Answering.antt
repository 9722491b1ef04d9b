-- ===== src/Session/Healing/Answering.antt =====
-- The answer to a REKEM, and REKEM_ACK at the end that asked (impl/go/sdk/ratchet.go).
use npamp_protocol.Crypto.{Crypto}
use npamp_protocol.Kem.{SharedSecrets, encapsulate_with, combined}
use npamp_protocol.KeySchedule.{KeyError, ratchet_master_tier2}
use npamp_protocol.Session.Handlers.{}
use npamp_protocol.Session.Markers.{encode_rekem_ack, frame_rekem_ack, th_rekem}
use npamp_protocol.Session.Sending.{
  Sent, after_write, given_state, or_close, skipped, answer_rekem, respond_rekem, chan_control,
  to_next_root,
}
use npamp_protocol.Session.State.{
  EpochKeys, Conn, ConnError, current, hold, hold_send, bump, send_state, next_root,
  or_derive_failed,
}
use npamp_protocol.Session.Delivery.Sealed.{send_state-Has}
use npamp_protocol.Session.Wire.{whole, write_wire, seal_with}
use npamp_protocol.Prelude.{ℕ, ◌+◌, ◌%◌, ◌^◌, ◌==◌, List, [], ◌≡◌, ◌≢◌, ◌⊎◌, refl, ap, ◌∙◌, arith}
use npamp_protocol.Prelude.{
  inl, inr, Bool-cases, true, false, none, ok, err, Result, Result-cases, ==_iff,
}

-- The answer of an end that was written, and the root that follows it.
pub record Answered (c : Crypto) (key random share : List ℕ) (gen : ℕ) (b : Conn) (s : Sent)
    : Type 0 where
  pub ct : List ℕ
  pub ss : SharedSecrets
  pub th : List ℕ
  pub root : List ℕ
  pub st : EpochKeys
  pub encapsulated : encapsulate_with c share key random ≡ ok (ct, ss)
  pub transcript : th_rekem c b.profile share ct gen ≡ ok th
  pub derived : ratchet_master_tier2 c b.send.master (combined ss) th b.profile ≡ ok root
  pub next : gen ≡ (b.send.gen + 1) % 2 ^ 64
  pub live : b.closed ≡ false
  pub keys : current c b.profile b.send chan_control ≡ ok st
  pub sealed : s.wire ≡ seal_with c st chan_control frame_rekem_ack (encode_rekem_ack ct gen)
  pub flow : s.conn.send ≡ next_root root gen b.send
  pub profile : s.conn.profile ≡ b.profile

module _ (c : Crypto) (ct new_ss th : List ℕ) (gen : ℕ) (b : Conn) where
  abbrev tier2 : Result KeyError (List ℕ)
  tier2 = ratchet_master_tier2 c b.send.master new_ss th b.profile

  answer_then : Result KeyError (List ℕ) → EpochKeys → Conn → Sent
  answer_then r st conn = or_close (
      after_write
        (write_wire whole (seal_with c st chan_control frame_rekem_ack (encode_rekem_ack ct gen)))
        conn (to_next_root (hold_send chan_control (bump st) conn) gen (or_derive_failed r)))

  -- All that an answer without an error has found.
  record Rekeyed (s : Sent) : Type 0 where
    root : List ℕ
    st : EpochKeys
    derived : tier2 ≡ ok root
    next : gen ≡ (b.send.gen + 1) % 2 ^ 64
    live : b.closed ≡ false
    keys : current c b.profile b.send chan_control ≡ ok st
    sealed : s.wire ≡ seal_with c st chan_control frame_rekem_ack (encode_rekem_ack ct gen)
    flow : s.conn.send ≡ next_root root gen b.send
    profile : s.conn.profile ≡ b.profile

  -- The state of the sender after the answer.
  abbrev rekeyed : List ℕ → EpochKeys → Conn → Sent
  rekeyed root st conn =
      let bumped = hold_send chan_control (bump st) conn in
      record {
        conn = record bumped { send = next_root root gen bumped.send };
        wire = seal_with c st chan_control frame_rekem_ack (encode_rekem_ack ct gen);
        failure = none;
      }

  answer_then-ok :
      (root : List ℕ) (st : EpochKeys) (conn : Conn)
      → (answer_then (ok root) st conn).failure ≡ none
      → answer_then (ok root) st conn ≡ rekeyed root st conn
  unfolding answer_then write_wire
  answer_then-ok root st conn h = ground arith

  answer_then-err :
      (e : KeyError) (st : EpochKeys) (conn : Conn) → (answer_then (err e) st conn).failure ≢ none
  unfolding answer_then write_wire
  answer_then-err e st conn h = ground arith

  answer_rekem-live :
      b.closed ≡ false
      → (gen == (b.send.gen + 1) % 2 ^ 64) ≡ true
      → answer_rekem c ct new_ss th gen whole b
        ≡ given_state (send_state c chan_control b) (λ e. skipped b) (answer_then tier2)
  unfolding answer_rekem answer_then
  answer_rekem-live h k = rw (h, k) refl

  answer_rekem-skipped :
      (b.closed ≡ true) ⊎ ((gen == (b.send.gen + 1) % 2 ^ 64) ≡ false)
      → (answer_rekem c ct new_ss th gen whole b).wire ≡ []
  unfolding answer_rekem
  answer_rekem-skipped (inl h) = rw h refl
  answer_rekem-skipped (inr h) = elim (Bool-cases b.closed) [
    | inl e ↦ rw e refl
    | inr e ↦ rw (e, h) refl
  ]

  state-Rekeyed :
      b.closed ≡ false
      → gen ≡ (b.send.gen + 1) % 2 ^ 64
      → (r : Result KeyError (List ℕ)) → tier2 ≡ r
      → (st : EpochKeys) (conn : Conn) → send_state c chan_control b ≡ ok (st, conn)
      → (answer_then r st conn).failure ≡ none
      → Rekeyed (answer_then r st conn)
  unfolding hold_send hold next_root
  state-Rekeyed live next (err e) d st conn there h = absurd (answer_then-err e st conn h)
  state-Rekeyed live next (ok root) d st conn there h =
      let has = send_state-Has c chan_control b st conn there in
      let e = answer_then-ok root st conn h in
      record {
        root = root;
        st = st;
        derived = d;
        next = next;
        live = live;
        keys = has.keys;
        sealed = ap (λ (s : Sent). s.wire) e;
        flow =
            ap (λ (s : Sent). s.conn.send) e
            ∙ ap (λ (k : Conn). next_root root gen k.send) has.cached;
        profile = ap (λ (s : Sent). s.conn.profile) e ∙ ap (λ (k : Conn). k.profile) has.cached;
      }

  given-Rekeyed :
      b.closed ≡ false
      → gen ≡ (b.send.gen + 1) % 2 ^ 64
      → (r : Result ConnError (EpochKeys × Conn)) → send_state c chan_control b ≡ r
      → (given_state r (λ e. skipped b) (answer_then tier2)).failure ≡ none
      → (given_state r (λ e. skipped b) (answer_then tier2)).wire ≢ []
      → Rekeyed (given_state r (λ e. skipped b) (answer_then tier2))
  given-Rekeyed live next (err e) there h n = absurd (n refl)
  given-Rekeyed live next (ok (st, conn)) there h n =
      state-Rekeyed live next tier2 refl st conn there h

  answer_rekem-Rekeyed :
      (answer_rekem c ct new_ss th gen whole b).failure ≡ none
      → (answer_rekem c ct new_ss th gen whole b).wire ≢ []
      → Rekeyed (answer_rekem c ct new_ss th gen whole b)
  answer_rekem-Rekeyed h n = elim (Bool-cases b.closed) [
    | inl e ↦ absurd (n (answer_rekem-skipped (inl e)))
    | inr e ↦ elim (Bool-cases (gen == (b.send.gen + 1) % 2 ^ 64)) [
      | inr k ↦ absurd (n (answer_rekem-skipped (inr k)))
      | inl k ↦
          let q = answer_rekem-live e k in
          rw q (
            given-Rekeyed e ((==_iff gen ((b.send.gen + 1) % 2 ^ 64)).0 k) _ refl (rw q at h)
              (rw q at n))
    ]
  ]

module _ (c : Crypto) (key random share : List ℕ) (gen : ℕ) (b : Conn) where
  -- The steps before the lock.
  abbrev answer : Sent
  answer = respond_rekem c key random share gen whole b

  record Prepared : Type 0 where
    ct : List ℕ
    ss : SharedSecrets
    th : List ℕ
    encapsulated : encapsulate_with c share key random ≡ ok (ct, ss)
    transcript : th_rekem c b.profile share ct gen ≡ ok th
    answered : answer ≡ answer_rekem c ct (combined ss) th gen whole b

  respond_rekem-Prepared : answer.wire ≢ [] → Prepared
  unfolding respond_rekem
  respond_rekem-Prepared n = elim (Result-cases (encapsulate_with c share key random)) [
    | inr (e, p) ↦ absurd (n (rw (respond_rekem, p) refl))
    | inl ((ct, ss), p) ↦ elim (Result-cases (th_rekem c b.profile share ct gen)) [
      | inr (e, q) ↦ absurd (n (rw (respond_rekem, p, q) refl))
      | inl (th, q) ↦ record {
        ct = ct;
        ss = ss;
        th = th;
        encapsulated = p;
        transcript = q;
        answered = rw (respond_rekem, p, q) refl;
      }
    ]
  ]

  pub respond_rekem-Answered :
      answer.failure ≡ none → answer.wire ≢ [] → Answered c key random share gen b answer
  respond_rekem-Answered h n =
      let p = respond_rekem-Prepared n in
      let r =
        answer_rekem-Rekeyed c p.ct (combined p.ss) p.th gen b (rw p.answered at h)
          (rw p.answered at n) in
      record {
        ct = p.ct;
        ss = p.ss;
        th = p.th;
        root = r.root;
        st = r.st;
        encapsulated = p.encapsulated;
        transcript = p.transcript;
        derived = r.derived;
        next = r.next;
        live = r.live;
        keys = r.keys;
        sealed = ap (λ (s : Sent). s.wire) p.answered ∙ r.sealed;
        flow = ap (λ (s : Sent). s.conn.send) p.answered ∙ r.flow;
        profile = ap (λ (s : Sent). s.conn.profile) p.answered ∙ r.profile;
      }

-- ===== src/Session/Healing/Healed.antt =====
-- The whole of a re-KEM (impl/go/sdk/ratchet.go).
use npamp_protocol.Crypto.{Crypto, IsAead, IsKem}
use npamp_protocol.Kem.{
  KemClient, SharedSecrets, kem_share_of, shared_secrets, combined, kem_ciphertext_size,
}
use npamp_protocol.Kem.Agreement.{length-encapsulated, shared_secrets-encapsulate_with}
use npamp_protocol.KeySchedule.{ratchet_master_tier2}
use npamp_protocol.Session.Delivery.Accepting.{accepted}
use npamp_protocol.Session.Delivery.Sealed.{Wrote}
use npamp_protocol.Session.Delivery.Steps.{InSync, received-dispatch}
use npamp_protocol.Session.Flows.{next_root-Agree}
use npamp_protocol.Session.Handlers.{
  Round, reply_to_rekem, handle_rekem_ack, finish_rekem, go_on, to_recv_root,
}
use npamp_protocol.Session.Healing.Answering.{Answered, respond_rekem-Answered}
use npamp_protocol.Session.Healing.Asking.{
  Asked, Requested, asking, target, rekem-Asked, asked-Requested,
}
use npamp_protocol.Session.MarkerRoundTrip.{parse_rekem_ack-encode_rekem_ack}
use npamp_protocol.Session.Markers.{encode_rekem_ack, frame_rekem_ack, th_rekem}
use npamp_protocol.Session.Receiving.{dispatch, receive_wire}
use npamp_protocol.Session.Sealing.{FitsFrame}
use npamp_protocol.Session.Sending.{Sent, rekem, respond_rekem, chan_control}
use npamp_protocol.Session.State.{
  EpochKeys, Conn, PendingRekem, hold, hold_send, hold_recv, bump, next_root,
}
use npamp_protocol.Session.Wire.{whole}
use npamp_protocol.Tlv.Encode.{length-encode_onto}
use npamp_protocol.Prelude.{
  ℕ, ◌+◌, ◌%◌, ◌^◌, ◌<◌, ==_refl, List, [], length, ◌≡◌, ◌≢◌, refl, sym, ap, ◌∙◌, arith,
}
use npamp_protocol.Prelude.{none, some, ok}
use npamp_protocol.Prelude.Bytes.{length-put_be}

module _ (c : Crypto) (pend : PendingRekem) (ct th root : List ℕ) (ss : SharedSecrets)
    (gen : ℕ) where
  finish_rekem-ok :
      (conn : Conn)
      → shared_secrets c pend.client ct ≡ ok ss
      → th_rekem c conn.profile pend.kem_share ct gen ≡ ok th
      → ratchet_master_tier2 c conn.recv.master (combined ss) th conn.profile ≡ ok root
      → finish_rekem c pend ct gen conn ≡ go_on (to_recv_root conn gen root) none
  unfolding finish_rekem next_root
  finish_rekem-ok conn h k l = rw (finish_rekem, h, k, l) refl

  dispatch-rekem_ack :
      (st : EpochKeys) (conn : Conn)
      → length ct ≡ kem_ciphertext_size
      → gen < 2 ^ 64
      → conn.pending_rekem ≡ some pend
      → gen ≡ (conn.recv.gen + 1) % 2 ^ 64
      → gen ≡ pend.target_gen
      → dispatch c frame_rekem_ack chan_control st (encode_rekem_ack ct gen) conn
        ≡ finish_rekem c pend ct gen (record conn { pending_rekem = none })
  unfolding dispatch handle_rekem_ack
  dispatch-rekem_ack st conn sized fits there next same =
      rw
        (
          handle_rekem_ack,
          parse_rekem_ack-encode_rekem_ack ct gen sized fits,
          there,
          ← next,
          ← same,
          ==_refl gen,
        )
        refl

module _ (c : Crypto) (aead : IsAead c) (kem : IsKem c) (key random : List ℕ) (a b : Conn)
    (back : InSync c b a) (client : KemClient) (gen : ℕ)
    (there : a.pending_rekem
      ≡ some (record { client = client; kem_share = kem_share_of c client; target_gen = gen }))
    (next : gen ≡ (a.recv.gen + 1) % 2 ^ 64) (s : Sent)
    (answered : Answered c key random (kem_share_of c client) gen b s) where
  pend : PendingRekem
  pend = record { client = client; kem_share = kem_share_of c client; target_gen = gen }

  sized : length answered.ct ≡ kem_ciphertext_size
  sized = length-encapsulated c kem client key random answered.ct answered.ss answered.encapsulated

  abbrev payload : EpochKeys → List ℕ
  payload st = encode_rekem_ack answered.ct gen

  wrote : Wrote c b chan_control frame_rekem_ack payload s
  wrote = record {
    st = answered.st;
    live = answered.live;
    keys = answered.keys;
    sealed = answered.sealed;
    profile = answered.profile;
  }

  ack-FitsFrame : FitsFrame chan_control frame_rekem_ack (encode_rekem_ack answered.ct gen)
  unfolding encode_rekem_ack
  ack-FitsFrame = record {
    channel_fits = omega arith;
    type_fits = omega arith;
    text_fits =
        rw (length-encode_onto _ _, length-encode_onto _ _)
          (omega (arith, sized, length-put_be 8 gen));
  }

  -- The state of the end that asked, with its new root.
  pub healed : Conn
  healed =
      to_recv_root (record (accepted answered.st chan_control a) { pending_rekem = none }) gen
        answered.root

  transcript_a : th_rekem c a.profile (kem_share_of c client) answered.ct gen ≡ ok answered.th
  transcript_a =
      ap (λ (p : ℕ). th_rekem c p (kem_share_of c client) answered.ct gen) (sym back.profile)
      ∙ answered.transcript

  derived_a :
      ratchet_master_tier2 c a.recv.master (combined answered.ss) answered.th a.profile
      ≡ ok answered.root
  derived_a =
      (λ i.
        ratchet_master_tier2 c (sym back.agree.master i) (combined answered.ss) answered.th
          (sym back.profile i))
      ∙ answered.derived

  pub received_ack : receive_wire c s.wire a ≡ go_on healed none
  unfolding wrote healed pend accepted hold_recv hold bump
  received_ack =
      received-dispatch c aead b a chan_control frame_rekem_ack payload s back wrote ack-FitsFrame
      ∙ dispatch-rekem_ack c pend answered.ct answered.th answered.root answered.ss gen
          (bump answered.st) (accepted answered.st chan_control a) sized (omega (arith, next)) there
          next refl
      ∙ finish_rekem-ok c pend answered.ct answered.th answered.root answered.ss gen
          (record (accepted answered.st chan_control a) { pending_rekem = none })
          (shared_secrets-encapsulate_with c kem client key random answered.ct answered.ss
            answered.encapsulated)
          transcript_a derived_a

  pub healed-InSync : InSync c s.conn healed
  unfolding healed accepted hold_recv hold next_root
  healed-InSync = record {
    profile = answered.profile ∙ back.profile;
    live = back.live;
    agree =
        rw (answered.profile, answered.flow)
          (next_root-Agree c b.profile b.send a.recv answered.root gen back.agree
            (omega (arith, next)));
  }

-- What a re-KEM has done to both ends.
pub record Healed (c : Crypto) (a b : Conn) (client : KemClient) (asked answer : Sent)
    : Type 0 where
  pub task :
      (receive_wire c asked.wire b).task
      ≡ some (reply_to_rekem (kem_share_of c client) ((a.recv.gen + 1) % 2 ^ 64))
  pub forth : InSync c asked.conn (receive_wire c asked.wire b).conn
  pub goes_on : (receive_wire c answer.wire asked.conn).action ≡ none
  pub back : InSync c answer.conn (receive_wire c answer.wire asked.conn).conn
  pub gen : (receive_wire c answer.wire asked.conn).conn.recv.gen ≡ (a.recv.gen + 1) % 2 ^ 64
  pub settled : (receive_wire c answer.wire asked.conn).conn.pending_rekem ≡ none

module _ (c : Crypto) (aead : IsAead c) (kem : IsKem c) (client : KemClient) (key random : List ℕ)
    (a b : Conn) (forth : InSync c a b) (back : InSync c b a)
    (asks : (rekem c client whole a).failure ≡ none) where
  asked : Asked c client a
  asked = rekem-Asked c client a asks

  requested : Requested c aead kem client a b asked
  requested = asked-Requested c aead kem client a b forth asked

  abbrev after_b : Conn
  after_b = (receive_wire c (rekem c client whole a).wire b).conn

  abbrev answer : Sent
  answer = respond_rekem c key random (kem_share_of c client) (target c client a) whole after_b

  abbrev asking_a : Conn
  asking_a = asking c client a asked.st (hold_send chan_control asked.st a)

  back_before : InSync c (accepted asked.st chan_control b) asking_a
  unfolding accepted hold_recv hold_send
  back_before = record { profile = back.profile; live = back.live; agree = back.agree }

  moved : (x y : Conn) → x ≡ accepted asked.st chan_control b → y ≡ asking_a → InSync c x y
  moved x y p q = rw (p, q) back_before

  back_again : InSync c after_b (rekem c client whole a).conn
  back_again =
      moved after_b (rekem c client whole a).conn (ap (λ (r : Round). r.conn) requested.round)
        (ap (λ (s : Sent). s.conn) asked.sent)

  -- With an AEAD and a KEM that do as documented, between two ends in step in both directions: if
  -- ReKEM at one end returns no error, its frame written, then the other end starts an answer for the
  -- share and the next generation; if this answer is written and reports no error, then the first end
  -- takes the REKEM_ACK without a reaction, receives at the next generation with no request open, and
  -- the two ends are in step again in the direction of each frame.
  pub rekem-Healed :
      answer.failure ≡ none → answer.wire ≢ [] → Healed c a b client (rekem c client whole a) answer
  unfolding hold_send healed next_root
  rekem-Healed fine writes =
      let answered =
        respond_rekem-Answered c key random (kem_share_of c client) (target c client a) after_b fine
          writes in
      let there = ap (λ (s : Sent). s.conn.pending_rekem) asked.sent in
      let next = ap (λ (s : Sent). (s.conn.recv.gen + 1) % 2 ^ 64) (sym asked.sent) in
      let e =
        received_ack c aead kem key random (rekem c client whole a).conn after_b back_again client
          (target c client a) there next answer answered in
      record {
        task = ap (λ (r : Round). r.task) requested.round;
        forth = rw requested.round requested.sync;
        goes_on = ap (λ (r : Round). r.action) e;
        back = rw e (
            healed-InSync c aead kem key random (rekem c client whole a).conn after_b back_again
              client (target c client a) there next answer answered);
        gen = rw e refl;
        settled = rw e refl;
      }

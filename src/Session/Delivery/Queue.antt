-- ===== src/Session/Delivery/Queue.antt =====
-- A session delivers as a queue does, whatever noise arrives between its frames
-- (impl/go/sdk/conn.go, keyupdate.go, ratchet.go).
use npamp_protocol.Session.Delivery.Runs.{
  Command, message, rotate, ratchet, IsCommand, Message, messages, collect, perform, run, drain,
  run-Ran, run_nil, Drains, Mixed, done, genuine, noise,
}
use npamp_protocol.Session.Drops.{Dropped, receive_wire-Dropped}
use npamp_protocol.Session.State.{current}
use npamp_protocol.Crypto.{Crypto, IsAead}
use npamp_protocol.Session.Delivery.Ratcheting.{ratchet_send-Continues}
use npamp_protocol.Session.Delivery.Steps.{InSync, send-Delivers, key_update-Continues}
use npamp_protocol.Session.Handlers.{Round}
use npamp_protocol.Session.Receiving.{receive_wire}
use npamp_protocol.Session.Sending.{}
use npamp_protocol.Session.State.{Conn}
use npamp_protocol.Prelude.{ℕ, ◌≡◌, refl, sym, ap, ◌∙◌}
use npamp_protocol.Prelude.{List, [], ◌∷◌, All, none, some}

module _ (c : Crypto) where
  collect-none :
      (r : Round) (later : List Message × Conn)
      → r.action ≡ none
      → collect r.action r.conn later ≡ later
  collect-none r later h = rw h refl

  module _ (aead : IsAead c) where
    -- One command and the queue after it.
    step_messages : Command → List Message → List Message
    step_messages (message channel ft payload) ms = (channel, ft, payload) ∷ ms
    step_messages (rotate channel) ms = ms
    step_messages ratchet ms = ms

    drain-cons :
        (wire : List ℕ) (wires : List (List ℕ)) (b : Conn)
        → drain c (wire ∷ wires) b
          ≡ (let r = receive_wire c wire b in collect r.action r.conn (drain c wires r.conn))
    unfolding drain
    drain-cons wire wires b = refl

    first :
        (k : Command) (a b a' : Conn) (ms : List Message) (rest : List (List ℕ))
        → InSync c a b
        → IsCommand k
        → (perform c k a).failure ≡ none
        → (InSync c (perform c k a).conn (receive_wire c (perform c k a).wire b).conn
            → Drains c a' (receive_wire c (perform c k a).wire b).conn ms rest)
        → Drains c a' b (step_messages k ms) ((perform c k a).wire ∷ rest)
    unfolding perform step_messages
    first (message channel ft payload) a b a' ms rest sync (fits, p, q, r) fine next =
        let d = send-Delivers c aead a b sync channel ft payload fits p q r fine in
        let later = next d.still in
        record {
          after = later.after;
          handed = drain-cons _ rest b ∙ rw (d.arrives, later.handed) refl;
          sync = later.sync;
        }
    first (rotate channel) a b a' ms rest sync fits fine next =
        let d = key_update-Continues c aead a b sync channel fits fine in
        let later = next d.still in
        record {
          after = later.after;
          handed = drain-cons _ rest b ∙ rw (d.goes_on, later.handed) refl;
          sync = later.sync;
        }
    first ratchet a b a' ms rest sync u fine next =
        let d = ratchet_send-Continues c aead a b sync fine in
        let later = next d.still in
        record {
          after = later.after;
          handed = drain-cons _ rest b ∙ rw (d.goes_on, later.handed) refl;
          sync = later.sync;
        }

    first_of :
        (wire : List ℕ) (k : Command) (a b a' : Conn) (ms : List Message) (rest : List (List ℕ))
        → wire ≡ (perform c k a).wire
        → InSync c a b
        → IsCommand k
        → (perform c k a).failure ≡ none
        → (InSync c (perform c k a).conn (receive_wire c wire b).conn
            → Drains c a' (receive_wire c wire b).conn ms rest)
        → Drains c a' b (step_messages k ms) (wire ∷ rest)
    first_of wire k a b a' ms rest e sync valid fine next =
        rw e (first k a b a' ms rest sync valid fine (rw e at next))

    messages-cons :
        (k : Command) (ks : List Command) → step_messages k (messages ks) ≡ messages (k ∷ ks)
    unfolding messages step_messages
    messages-cons (message channel ft payload) ks = refl
    messages-cons (rotate channel) ks = refl
    messages-cons ratchet ks = refl

    Dropped-InSync : (a b : Conn) (r : Round) → InSync c a b → Dropped c b r → InSync c a r.conn
    Dropped-InSync a b r sync d =
        let at_a = λ (channel : ℕ).
          ap (λ (p : ℕ). current c p r.conn.recv channel) sync.profile
          ∙ d.keys channel
          ∙ ap (λ (p : ℕ). current c p b.recv channel) (sym sync.profile) in
        record {
          profile = sync.profile ∙ ap (λ (k : Conn). k.profile) (sym d.same);
          live = ap (λ (k : Conn). k.closed) d.same ∙ sync.live;
          agree = record {
            master = sync.agree.master ∙ sym d.master;
            gen = sync.agree.gen ∙ sym d.gen;
            dir = sync.agree.dir ∙ sym d.dir;
            keys = λ channel. sync.agree.keys channel ∙ sym (at_a channel);
            bounded = sync.agree.bounded;
            gen_fits = sync.agree.gen_fits;
          };
        }

    skip :
        (a' b : Conn) (ms : List Message) (wire : List ℕ) (arriving : List (List ℕ))
        → (receive_wire c wire b).action ≡ none
        → Drains c a' (receive_wire c wire b).conn ms arriving
        → Drains c a' b ms (wire ∷ arriving)
    skip a' b ms wire arriving h later = record {
      after = later.after;
      handed = drain-cons wire arriving b ∙ rw (h, later.handed) refl;
      sync = later.sync;
    }

    -- With an AEAD that opens what it sealed: if a sender's keys are in step with those of a receiver
    -- that is not closed, and a run of Send, KeyUpdate and RatchetSend calls with written frames
    -- returns no error, then from these frames in order, with any number of frames between them that
    -- are in cleartext, out of sequence or with a tag that fails, the receiver hands on exactly the
    -- messages sent, in order, and is in step again. The messages fit the header, are not on Control
    -- and are of no type of a key update; the channels of the key updates fit 16 bits.
    pub drain-run :
        {b : Conn} {sent arriving : List (List ℕ)}
        → Mixed c b sent arriving
        → (ks : List Command) (a a' : Conn) → InSync c a b
        → All IsCommand ks
        → run c ks a ≡ some (sent, a')
        → Drains c a' b (messages ks) arriving
    unfolding drain messages
    drain-run (done {b}) [] a a' sync valid h = record {
      after = b;
      handed = refl;
      sync = rw (← (run_nil c a [] a' h).1) sync;
    }
    drain-run (done {b}) (k ∷ ks) a a' sync valid h =
        absurd (let e = (run-Ran c k ks a [] a' h).frames in cc)
    drain-run (genuine {b} {wire} {sent} {arriving} m) [] a a' sync valid h =
        absurd (let e = (run_nil c a (wire ∷ sent) a' h).0 in cc)
    drain-run (genuine {b} {wire} {sent} {arriving} m) (k ∷ ks) a a' sync valid h =
        let ran = run-Ran c k ks a (wire ∷ sent) a' h in
        let same_wire : wire ≡ (perform c k a).wire = let e = ran.frames in cc in
        let same_rest : ran.rest ≡ sent = let e = ran.frames in cc in
        rw (← messages-cons k ks) (
          first_of wire k a b a' (messages ks) arriving same_wire sync valid.0 ran.fine (λ sync'.
            drain-run m ks (perform c k a).conn a' sync' valid.1 (rw same_rest at ran.ran)))
    drain-run (noise {b} {wire} {sent} {arriving} n m) ks a a' sync valid h =
        let d = receive_wire-Dropped c b wire sync.live n in
        skip a' b (messages ks) wire arriving d.action
          (drain-run m ks a a' (Dropped-InSync a b (receive_wire c wire b) sync d) valid h)

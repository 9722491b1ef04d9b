-- ===== src/PendingAck/Rounds.antt =====
-- The set of generations whose ratchet acknowledgement is outstanding (impl/go/sdk/pendingack.go).
use npamp_protocol.PendingAck.{Generations, is_present, add_ratchet_ack, consume_ratchet_ack}
use npamp_protocol.Prelude.{ℕ, ◌≡◌, arith, Bool, true, false, ◌==◌, if◌then◌else◌}
use npamp_protocol.Prelude.Maps.{find, find-put, find-remove}

-- Whether the generation's acknowledgement is outstanding.
abbrev pub is_outstanding : ℕ → Generations → Bool
is_outstanding gen acks = is_present (find gen acks)

-- Adding a generation makes its acknowledgement outstanding, and changes no other.
add_ratchet_ack_lem :
    (gen g : ℕ) (acks : Generations)
    → is_outstanding g (add_ratchet_ack gen acks)
      ≡ (if gen == g then true else is_outstanding g acks)
unfolding add_ratchet_ack
add_ratchet_ack_lem gen g acks = rw (find-put gen g tt acks) (ground arith)

consume_cases :
    (gen g : ℕ) (acks : Generations)
    → is_outstanding g (consume_ratchet_ack gen acks).0
      ≡ (if gen == g then false else is_outstanding g acks)
unfolding consume_ratchet_ack
consume_cases gen g acks = ground (arith, find-remove gen g acks)

-- A ratchet acknowledgement is solicited exactly if its generation is outstanding; afterwards it is
-- not, and no other generation changes.
pub consume_ratchet_ack_solicited :
    (gen g : ℕ) (acks : Generations)
    → ((consume_ratchet_ack gen acks).1 ≡ is_outstanding gen acks)
      × (is_outstanding g (consume_ratchet_ack gen acks).0
          ≡ (if gen == g then false else is_outstanding g acks))
unfolding consume_ratchet_ack
consume_ratchet_ack_solicited gen g acks = (ground arith, consume_cases gen g acks)

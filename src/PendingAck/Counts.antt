-- ===== src/PendingAck/Counts.antt =====
-- The nested maps implement a multiset of (channel, epoch) pairs, and a set of generations.
use npamp_protocol.PendingAck.{KeyUpdateAcks, Counts, or_empty, count_in, remove_in, consume_in}
use npamp_protocol.PendingAck.{
  add_key_update_ack, remove_key_update_ack, consume_key_update_ack, decrement, store,
}
use npamp_protocol.Prelude.{ℕ, ◌+◌, ◌-◌, ◌≡◌, refl, arith, ◌∙◌, sym, Option, some, none}
use npamp_protocol.Prelude.{ltb, ◌==◌, if◌then◌else◌, ◌&&◌, Bool-cases, inl, inr}
use native.Mathlib.Decide.{ℕ_discrete as dec_eq}
use npamp_protocol.Prelude.Maps.{find, put, find-put, find-remove, find-empty}

-- How many acknowledgements of the epoch are outstanding on the channel.
abbrev pub outstanding : KeyUpdateAcks → ℕ → ℕ → ℕ
outstanding acks channel epoch = count_in epoch (or_empty (find channel acks))

find-decrement :
    (epoch e : ℕ) (set : Counts)
    → count_in e (decrement epoch set)
      ≡ (if epoch == e then count_in epoch set - 1 else count_in e set)
unfolding decrement
find-decrement epoch e set =
    ground (arith, find-remove epoch e set, find-put epoch e (count_in epoch set - 1) set)

outstanding-store :
    (channel ch e : ℕ) (set : Counts) (acks : KeyUpdateAcks)
    → outstanding (store channel set acks) ch e
      ≡ (if channel == ch then count_in e set else outstanding acks ch e)
unfolding store find
outstanding-store channel ch e set acks =
    ground (arith, find-remove channel ch acks, find-put channel ch set acks, find-empty e set)

outstanding-add_key_update_ack :
    (channel epoch ch e : ℕ) (acks : KeyUpdateAcks)
    → outstanding (add_key_update_ack channel epoch acks) ch e
      ≡ (if channel == ch && epoch == e then outstanding acks ch e + 1 else outstanding acks ch e)
unfolding add_key_update_ack
outstanding-add_key_update_ack channel epoch ch e acks =
    let set = or_empty (find channel acks) in
    ground (
      arith,
      find-put channel ch (put epoch (count_in epoch set + 1) set) acks,
      find-put epoch e (count_in epoch set + 1) set,
    )

-- The change that taking one acknowledgement makes.
abbrev lowered : KeyUpdateAcks → ℕ → ℕ → ℕ → ℕ → ℕ
lowered acks channel epoch ch e =
    if channel == ch && epoch == e then outstanding acks ch e - 1 else outstanding acks ch e

module _ (channel epoch ch e : ℕ) (acks : KeyUpdateAcks) where
  lowered-zero :
      outstanding acks channel epoch ≡ 0 → lowered acks channel epoch ch e ≡ outstanding acks ch e
  lowered-zero h = elim (dec_eq channel ch) [
    | yes p ↦ elim (dec_eq epoch e) [
      | yes q ↦ rw (← p, ← q, h) (ground arith)
      | no q ↦ ground arith
    ]
    | no p ↦ ground arith
  ]

  outstanding-decrement :
      (set : Counts)
      → find channel acks ≡ some set
      → outstanding (store channel (decrement epoch set) acks) ch e
        ≡ lowered acks channel epoch ch e
  outstanding-decrement set h =
      outstanding-store channel ch e (decrement epoch set) acks ∙ elim (dec_eq channel ch) [
        | yes p ↦ rw (← p, h) (ground (arith, find-decrement epoch e set))
        | no p ↦ ground arith
      ]

  unchanged :
      (set : Counts)
      → find channel acks ≡ some set
      → (if channel == ch then count_in e set else outstanding acks ch e) ≡ outstanding acks ch e
  unchanged set h = elim (dec_eq channel ch) [
    | yes p ↦ rw (← p, h) (ground arith)
    | no p ↦ ground arith
  ]

  remove_in_lem :
      (o : Option Counts)
      → find channel acks ≡ o
      → outstanding (remove_in channel epoch o acks) ch e ≡ lowered acks channel epoch ch e
  unfolding remove_in
  remove_in_lem none h = sym (lowered-zero (rw h (unfold find in refl)))
  remove_in_lem (some set) h = elim (Bool-cases (ltb 0 (count_in epoch set))) [
    | inl c ↦ rw c (outstanding-decrement set h)
    | inr c ↦ rw c (
        outstanding-store channel ch e set acks
        ∙ unchanged set h
        ∙ sym (lowered-zero (rw h (ground arith))))
  ]

  consume_in_lem :
      (o : Option Counts)
      → find channel acks ≡ o
      → ((consume_in channel epoch o acks).1 ≡ ltb 0 (outstanding acks channel epoch))
        × (outstanding (consume_in channel epoch o acks).0 ch e ≡ lowered acks channel epoch ch e)
  unfolding consume_in
  consume_in_lem none h =
      let zero_left : outstanding acks channel epoch ≡ 0 = rw h (unfold find in refl) in
      (rw zero_left refl, sym (lowered-zero zero_left))
  consume_in_lem (some set) h = elim (Bool-cases (count_in epoch set == 0)) [
    | inl c ↦ rw (c, h) (ground arith, sym (lowered-zero (rw h (ground arith))))
    | inr c ↦ rw (c, h) (ground arith, outstanding-decrement set h)
  ]

outstanding-remove_key_update_ack :
    (channel epoch ch e : ℕ) (acks : KeyUpdateAcks)
    → outstanding (remove_key_update_ack channel epoch acks) ch e
      ≡ (if channel == ch && epoch == e then outstanding acks ch e - 1 else outstanding acks ch e)
unfolding remove_key_update_ack
outstanding-remove_key_update_ack channel epoch ch e acks =
    remove_in_lem channel epoch ch e acks (find channel acks) refl

-- Adding raises the count of its own channel and epoch by one, and no other; removing lowers it by
-- one, stopping at 0, and no other.
pub outstanding_lem :
    (channel epoch ch e : ℕ) (acks : KeyUpdateAcks)
    → (outstanding (add_key_update_ack channel epoch acks) ch e ≡ (
        if channel == ch && epoch == e then outstanding acks ch e + 1 else outstanding acks ch e))
      × (outstanding (remove_key_update_ack channel epoch acks) ch e ≡ (
          if channel == ch && epoch == e then outstanding acks ch e - 1 else outstanding acks ch e))
outstanding_lem channel epoch ch e acks = (
  outstanding-add_key_update_ack channel epoch ch e acks,
  outstanding-remove_key_update_ack channel epoch ch e acks,
)

-- An acknowledgement is solicited exactly if one is outstanding; then it is consumed once, and no
-- other count changes.
pub consume_key_update_ack_solicited :
    (channel epoch ch e : ℕ) (acks : KeyUpdateAcks)
    → ((consume_key_update_ack channel epoch acks).1 ≡ ltb 0 (outstanding acks channel epoch))
      × (outstanding (consume_key_update_ack channel epoch acks).0 ch e ≡ (
          if channel == ch && epoch == e then outstanding acks ch e - 1 else outstanding acks ch e))
unfolding consume_key_update_ack
consume_key_update_ack_solicited channel epoch ch e acks =
    consume_in_lem channel epoch ch e acks (find channel acks) refl

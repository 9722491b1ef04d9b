-- ===== src/PendingAck.antt =====
-- The outstanding acknowledgements of impl/go/sdk/pendingack.go. The two maps are the fields
-- pendingKUAck (per channel, a count for each epoch) and pendingMRAck (a set of generations) of
-- Conn; a nil map is an empty one.
pub mod Counts
pub mod Rounds
use npamp_protocol.Prelude.{ℕ, ◌+◌, ◌-◌, ◌<◌, ◌≤◌, List, [], ◌∷◌, Option, some, none}
use npamp_protocol.Prelude.{Bool, true, false, ltb, ◌==◌, if◌then◌else◌}
use npamp_protocol.Prelude.Maps.{find, put, remove, is_empty}

abbrev pub Counts : Type 0
Counts = List (ℕ × ℕ)

abbrev pub KeyUpdateAcks : Type 0
KeyUpdateAcks = List (ℕ × Counts)

abbrev pub Generations : Type 0
Generations = List (ℕ × Unit {0})

abbrev pub or_zero : Option ℕ → ℕ
or_zero none = 0
or_zero (some n) = n

abbrev pub or_empty : Option Counts → Counts
or_empty none = []
or_empty (some s) = s

-- `set[epoch]`, 0 where there is no entry.
abbrev pub count_in : ℕ → Counts → ℕ
count_in epoch set = or_zero (find epoch set)

-- `set[epoch]--`, and the entry goes when the count is 0.
unfoldable pub decrement : ℕ → Counts → Counts
decrement epoch set =
    let n = count_in epoch set - 1 in if n == 0 then remove epoch set else put epoch n set

-- A channel with an empty set goes.
unfoldable pub store : ℕ → Counts → KeyUpdateAcks → KeyUpdateAcks
store channel set acks = if is_empty set then remove channel acks else put channel set acks

-- addPendingKeyUpdateAck
unfoldable pub add_key_update_ack : ℕ → ℕ → KeyUpdateAcks → KeyUpdateAcks
add_key_update_ack channel epoch acks =
    let set = or_empty (find channel acks) in
    put channel (put epoch (count_in epoch set + 1) set) acks

remove_in : ℕ → ℕ → Option Counts → KeyUpdateAcks → KeyUpdateAcks
unfolding decrement store
remove_in channel epoch none acks = acks
remove_in channel epoch (some set) acks =
    store channel (if ltb 0 (count_in epoch set) then decrement epoch set else set) acks

-- removePendingKeyUpdateAck
unfoldable pub remove_key_update_ack : ℕ → ℕ → KeyUpdateAcks → KeyUpdateAcks
unfolding remove_in
remove_key_update_ack channel epoch acks = remove_in channel epoch (find channel acks) acks

consume_in : ℕ → ℕ → Option Counts → KeyUpdateAcks → KeyUpdateAcks × Bool
unfolding decrement store
consume_in channel epoch none acks = (acks, false)
consume_in channel epoch (some set) acks =
    if count_in epoch set == 0
    then (acks, false)
    else (store channel (decrement epoch set) acks, true)

-- consumePendingKeyUpdateAck: the new map, and whether the acknowledgement was solicited.
unfoldable pub consume_key_update_ack : ℕ → ℕ → KeyUpdateAcks → KeyUpdateAcks × Bool
unfolding consume_in
consume_key_update_ack channel epoch acks = consume_in channel epoch (find channel acks) acks

-- addPendingRatchetAck, removePendingRatchetAck, consumePendingRatchetAck
unfoldable pub add_ratchet_ack : ℕ → Generations → Generations
add_ratchet_ack gen acks = put gen tt acks

unfoldable pub remove_ratchet_ack : ℕ → Generations → Generations
remove_ratchet_ack gen acks = remove gen acks

abbrev pub is_present : Option (Unit {0}) → Bool
is_present none = false
is_present (some u) = true

unfoldable pub consume_ratchet_ack : ℕ → Generations → Generations × Bool
consume_ratchet_ack gen acks =
    if is_present (find gen acks) then (remove gen acks, true) else (acks, false)

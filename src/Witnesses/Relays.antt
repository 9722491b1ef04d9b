-- ===== src/Witnesses/Relays.antt =====
-- The relay, the registry validator and the firewall on one frame (impl/go/relay,
-- impl/go/wirevalidator, impl/go/firewall).
use npamp_protocol.Witnesses.Frames.{sample_wire}
use npamp_protocol.Frame.{header_size, max_frame_size, unmarshal_binary, any_nonzero}
use npamp_protocol.Frame.Crc.{checksum}
use npamp_protocol.Prelude.{◌+◌, ◌≤◌, ◌≡◌, ◌≢◌, ◌↔◌, refl, arith, [], ◌∷◌, ◌++◌, All}
use npamp_protocol.Prelude.{false, some, none, ok, bytes_eq}
use npamp_protocol.Prelude.Bytes.{get_be}
use npamp_protocol.Witnesses.Frames.{sample_frame, unmarshal_test}
use npamp_protocol.Relay.Forwarding.Taken.{Admitted}
use npamp_protocol.Relay.Passing.{from, forward-joined}
use npamp_protocol.Relay.{
  Source, closed, a_to_b, Turn, Deadline, Forwarded, RelayError, forward, stuck, read_raw_frame,
  header_of,
}
use npamp_protocol.Relay.Forwarding.{Faithful, forward-Faithful}
use npamp_protocol.Relay.Ending.{forward-ne-stuck}
use npamp_protocol.Validator.{
  Registries, ChannelPolicy, check_frame_type, check_bounds, contains, contains_pair, validate,
  relay_hook, composed_hook, decide_channel_policy, FirewallError,
}
use npamp_protocol.Validator.Rules.{IsRegistered, check_frame_type_iff}
use npamp_protocol.Validator.Firewalled.{
  IsScreened, validate_iff, relay_hook-validate, forward-IsScreened,
}

abbrev sample_registries : Registries
sample_registries = record {
  channels = 3 ∷ [];
  system_frames = 1 ∷ [];
  chan_frames = (3, 0x0102) ∷ [];
  tlv_tags = [];
  error_codes = [];
}

abbrev sample_policy : ChannelPolicy
sample_policy = record { denied_channels = 4 ∷ []; denied_frame_types = (3, 0x0103) ∷ [] }

abbrev calm : Turn
calm = record {
  is_cancelled = false;
  read_deadline = Deadline.in_force;
  write_deadline = Deadline.in_force;
  write_stops_at = none;
}

-- One frame and a cut-off second one.
abbrev sample_source : Source
sample_source = record { octets = sample_wire ++ (78 ∷ []); ends = closed }

abbrev screened : Forwarded FirewallError
screened =
    forward (some (composed_hook sample_registries (some (decide_channel_policy sample_policy))))
      a_to_b max_frame_size 41 (λ n. calm) sample_source

forward_test :
    screened
    ≡ record { sent = sample_wire ∷ []; cut = []; outcome = some RelayError.unexpected_eof }
unfolding forward read_raw_frame unmarshal_binary get_be checksum any_nonzero bytes_eq composed_hook
    check_frame_type check_bounds contains contains_pair decide_channel_policy
forward_test = refl

forward-IsScreened_example : All (IsScreened sample_registries sample_policy) screened.sent
forward-IsScreened_example =
    forward-IsScreened sample_registries sample_policy a_to_b max_frame_size 41 (λ n. calm)
      sample_source

forward-Faithful_example :
    Faithful
      (some (composed_hook sample_registries (some (decide_channel_policy sample_policy))))
      a_to_b
      max_frame_size
      sample_source
      screened
forward-Faithful_example =
    forward-Faithful
      (some (composed_hook sample_registries (some (decide_channel_policy sample_policy)))) a_to_b
      max_frame_size 41 (λ n. calm) sample_source

forward-ne-stuck_example : screened.outcome ≢ some stuck
forward-ne-stuck_example =
    forward-ne-stuck
      (some (composed_hook sample_registries (some (decide_channel_policy sample_policy)))) a_to_b
      max_frame_size 41 (λ n. calm) sample_source (omega arith)

check_frame_type_iff_example :
    (check_frame_type sample_registries 3 0x0102 ≡ ok tt) ↔ IsRegistered sample_registries 3 0x0102
check_frame_type_iff_example = check_frame_type_iff sample_registries 3 0x0102

check_frame_type_test : check_frame_type sample_registries 3 0x0102 ≡ ok tt
unfolding check_frame_type contains contains_pair
check_frame_type_test = refl

validate_iff_example :
    (validate sample_registries sample_frame ≡ ok tt)
    ↔ (IsRegistered sample_registries 3 0x0102 × (header_size + 3 ≤ max_frame_size))
validate_iff_example = validate_iff sample_registries sample_frame

relay_hook-validate_example :
    relay_hook sample_registries a_to_b (header_of sample_wire sample_frame)
    ≡ validate sample_registries sample_frame
relay_hook-validate_example =
    relay_hook-validate sample_registries a_to_b sample_wire sample_frame (omega arith)

sample_wire-Admitted :
    Admitted
      (some (composed_hook sample_registries (some (decide_channel_policy sample_policy))))
      a_to_b
      max_frame_size
      sample_wire
unfolding composed_hook check_frame_type check_bounds contains contains_pair decide_channel_policy
sample_wire-Admitted = record {
  bounded = omega arith;
  frame = sample_frame;
  parsed = unmarshal_test;
  hooked = refl;
}

forward-joined_example :
    forward
      (some (composed_hook sample_registries (some (decide_channel_policy sample_policy))))
      a_to_b
      max_frame_size
      3
      (λ n. calm)
      (from (sample_wire ++ (sample_wire ++ [])))
    ≡ record { sent = sample_wire ∷ sample_wire ∷ []; cut = []; outcome = none }
forward-joined_example =
    forward-joined
      (some (composed_hook sample_registries (some (decide_channel_policy sample_policy)))) a_to_b
      max_frame_size (sample_wire ∷ sample_wire ∷ [])
      (sample_wire-Admitted, (sample_wire-Admitted, tt))

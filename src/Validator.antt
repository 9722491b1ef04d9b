-- ===== src/Validator.antt =====
-- The registry validator and the firewall that relays frames under it: impl/go/wirevalidator
-- (validate.go, relayhook.go) and impl/go/firewall (policy.go, firewall.go). A registry is the
-- list of its code points; names and the free-text details of rejections are left out, and a nil
-- frame is no Frame here.

pub mod Rules
pub mod Firewalled
use npamp_protocol.Frame.{Frame, FrameError, unmarshal_binary, header_size, max_frame_size}
use npamp_protocol.Tlv.{Tlv, max_tlvs_per_frame}
use npamp_protocol.Relay.{Direction, FrameHeader, HookFunc}
use npamp_protocol.Prelude.{ℕ, ◌+◌, List, [], ◌∷◌, Option, some, none, length}
use npamp_protocol.Prelude.{Bool, true, false, not, ltb, leb, ◌==◌, ◌&&◌, ◌||◌, if◌then◌else◌}
use npamp_protocol.Prelude.{Result, ok, err, ◌>>=◌, ◌>>◌, fail_if}

abbrev pub system_frame_max : ℕ
system_frame_max = 0x000a

pub record Registries : Type 0 where
  pub channels : List ℕ
  pub system_frames : List ℕ
  pub chan_frames : List (ℕ × ℕ)  -- channel, frame type
  pub tlv_tags : List ℕ
  pub error_codes : List ℕ

pub data RejectReason : Type 0 where
  frame_type_reserved channel_not_registered frame_type_not_registered : RejectReason
  frame_too_large too_many_tlvs tlv_tag_not_registered error_code_not_registered : RejectReason

unfoldable pub contains : ℕ → List ℕ → Bool
contains x [] = false
contains x (y ∷ ys) = y == x || contains x ys

unfoldable pub contains_pair : ℕ → ℕ → List (ℕ × ℕ) → Bool
contains_pair x y [] = false
contains_pair x y ((a, b) ∷ ps) = (a == x && b == y) || contains_pair x y ps

module _ (reg : Registries) where
  unfoldable pub check_frame_type : ℕ → ℕ → Result RejectReason (Unit {0})
  check_frame_type channel frame_type =
      if frame_type == 0
      then err frame_type_reserved
      else if not (contains channel reg.channels)
      then err channel_not_registered
      else if leb frame_type system_frame_max
      then (if not (contains frame_type reg.system_frames)
          then err frame_type_not_registered
          else ok tt)
      else if not (contains_pair channel frame_type reg.chan_frames)
      then err frame_type_not_registered
      else ok tt

-- A tlvCount of -1 is `none`.
unfoldable pub check_bounds : ℕ → Option ℕ → Result RejectReason (Unit {0})
check_bounds total none = fail_if (ltb max_frame_size total) frame_too_large
check_bounds total (some tlvs) = do
  fail_if (ltb max_frame_size total) frame_too_large
  fail_if (ltb max_tlvs_per_frame tlvs) too_many_tlvs

pub data ValidationError : Type 0 where
  wire : FrameError → ValidationError
  reject : RejectReason → ValidationError

abbrev pub rejecting : {A : Type 0} → Result RejectReason A → Result ValidationError A
rejecting (ok a) = ok a
rejecting (err r) = err (reject r)

module _ (reg : Registries) where
  unfoldable pub validate : Frame → Result RejectReason (Unit {0})
  unfolding check_frame_type check_bounds
  validate f = do
    check_frame_type reg f.channel f.type
    check_bounds (header_size + length f.payload) none

  unfoldable pub validate_bytes : List ℕ → Result ValidationError (Unit {0})
  validate_bytes buf = elim (unmarshal_binary buf) [
    | ok f ↦ rejecting (validate f)
    | err e ↦ err (wire e)
  ]

  unfoldable pub validate_tlv_tag : ℕ → Result RejectReason (Unit {0})
  validate_tlv_tag t = fail_if (not (contains t reg.tlv_tags)) tlv_tag_not_registered

  validate_tags : List Tlv → Result RejectReason (Unit {0})
  unfolding validate_tlv_tag
  validate_tags [] = ok tt
  validate_tags (t ∷ tlvs) = validate_tlv_tag t.type >> validate_tags tlvs

  unfoldable pub validate_tlv_sequence : List Tlv → Result RejectReason (Unit {0})
  unfolding check_bounds validate_tags
  validate_tlv_sequence tlvs = check_bounds 0 (some (length tlvs)) >> validate_tags tlvs

  unfoldable pub validate_error_code : ℕ → Result RejectReason (Unit {0})
  validate_error_code code = fail_if (not (contains code reg.error_codes)) error_code_not_registered

  -- Registries.RelayHook: the checks that need no payload.
  unfoldable pub relay_hook : HookFunc RejectReason
  unfolding check_frame_type check_bounds
  relay_hook dir header = do
    check_frame_type reg header.channel header.type
    check_bounds (header_size + header.payload_len) none

-- A PolicyRejectError, without its text.
pub record PolicyReject : Type 0 where
  pub dir : Direction
  pub channel : ℕ
  pub type : ℕ

pub record ChannelPolicy : Type 0 where
  pub denied_channels : List ℕ
  pub denied_frame_types : List (ℕ × ℕ)

abbrev pub Policy : Type 0
Policy = Direction → FrameHeader → Result PolicyReject (Unit {0})

-- ChannelPolicy.Decide
unfoldable pub decide_channel_policy : ChannelPolicy → Policy
decide_channel_policy p dir header =
    if contains header.channel p.denied_channels
    then err (record { dir = dir; channel = header.channel; type = header.type })
    else if contains_pair header.channel header.type p.denied_frame_types
    then err (record { dir = dir; channel = header.channel; type = header.type })
    else ok tt

pub data FirewallError : Type 0 where
  by_registry : RejectReason → FirewallError
  by_policy : PolicyReject → FirewallError

pub record Firewall : Type 0 where
  pub registries : Option Registries
  pub policy : Option Policy

pub data HookError : Type 0 where
  no_registries : HookError

abbrev pub run_policy : Option Policy → Direction → FrameHeader → Result FirewallError (Unit {0})
run_policy none dir header = ok tt
run_policy (some p) dir header = elim (p dir header) [ ok u ↦ ok tt | err e ↦ err (by_policy e) ]

-- The hook that Firewall.Hook returns.
unfoldable pub composed_hook : Registries → Option Policy → HookFunc FirewallError
unfolding relay_hook
composed_hook reg policy dir header = elim (relay_hook reg dir header) [
  | ok u ↦ run_policy policy dir header
  | err e ↦ err (by_registry e)
]

-- Firewall.Hook
unfoldable pub firewall_hook : Firewall → Result HookError (HookFunc FirewallError)
unfolding composed_hook
firewall_hook f = elim f.registries [
  | none ↦ err no_registries
  | some reg ↦ ok (composed_hook reg f.policy)
]

-- ===== src/Validator/Firewalled.antt =====
-- The validator and the firewall's hook on whole frames (impl/go/wirevalidator, impl/go/firewall).
use npamp_protocol.Validator.Rules.{IsRegistered, check_frame_type_iff}
use npamp_protocol.Frame.{Frame, unmarshal_binary, header_size, max_frame_size}
use npamp_protocol.Relay.{Direction, FrameHeader, header_of, Source, Turn, forward, rejected}
use npamp_protocol.Relay.Forwarding.Taken.{Admitted}
use npamp_protocol.Relay.Forwarding.{forward-Faithful}
use npamp_protocol.Validator.{
  Registries, RejectReason, contains, contains_pair, check_frame_type, check_bounds, validate,
  relay_hook,
}
use npamp_protocol.Validator.{
  ChannelPolicy, decide_channel_policy, FirewallError, by_registry, by_policy, composed_hook,
  run_policy,
}
use npamp_protocol.Prelude.{ℕ, ◌+◌, ◌≤◌, ◌<◌, ◌^◌, ◌%◌, ◌≡◌, ◌↔◌, refl, arith}
use npamp_protocol.Prelude.{List, [], ◌∷◌, length, All, some, none, false}
use npamp_protocol.Prelude.{Result, ok, err, >>=-eq-ok}

check_bounds_iff : (total : ℕ) → (check_bounds total none ≡ ok tt) ↔ (total ≤ max_frame_size)
unfolding check_bounds
check_bounds_iff total = ground arith

-- Validate succeeds exactly on the frames of a registered channel and type whose marshalled
-- size is at most 16 MiB.
pub validate_iff :
    (reg : Registries) (f : Frame)
    → (validate reg f ≡ ok tt)
      ↔ (IsRegistered reg f.channel f.type × (header_size + length f.payload ≤ max_frame_size))
unfolding validate
validate_iff reg f = (
  λ h.
      let (_, p, q) = >>=-eq-ok (check_frame_type reg f.channel f.type) _ h in
      (
        (check_frame_type_iff reg f.channel f.type).0 p,
        (check_bounds_iff (header_size + length f.payload)).0 q,
      ),
  λ h.
      rw
        (
          (check_frame_type_iff reg f.channel f.type).1 h.0,
          (check_bounds_iff (header_size + length f.payload)).1 h.1,
        )
        refl,
)

-- The relay's hook sees only the header, and decides as Validate does on the frame, if the
-- payload's length fits its 32-bit field.
pub relay_hook-validate :
    (reg : Registries) (dir : Direction) (raw : List ℕ) (f : Frame)
    → length f.payload < 2 ^ 32
    → relay_hook reg dir (header_of raw f) ≡ validate reg f
unfolding relay_hook validate
relay_hook-validate reg dir raw f h =
    let e : length f.payload % 2 ^ 32 ≡ length f.payload = omega arith in rw e refl

-- A frame that no rule of the policy denies.
pub record IsPermitted (p : ChannelPolicy) (channel type : ℕ) : Type 0 where
  pub channel_free : contains channel p.denied_channels ≡ false
  pub type_free : contains_pair channel type p.denied_frame_types ≡ false

-- A hook's verdict under a change of its error.
verdict : {E F : Type 0} → (E → F) → Result E (Unit {0}) → Result F (Unit {0})
verdict g r = elim r [ ok u ↦ ok tt | err e ↦ err (g e) ]

verdict_ok : {E F : Type 0} (g : E → F) (r : Result E (Unit {0})) → verdict g r ≡ ok tt → r ≡ ok tt
unfolding verdict
verdict_ok g (ok u) h = refl
verdict_ok g (err e) h = cc

decide_channel_policy-IsPermitted :
    (p : ChannelPolicy) (dir : Direction) (h : FrameHeader)
    → decide_channel_policy p dir h ≡ ok tt
    → IsPermitted p h.channel h.type
unfolding decide_channel_policy
decide_channel_policy-IsPermitted p dir h e = record {
  channel_free = ground arith;
  type_free = ground arith;
}

module _ (reg : Registries) (p : ChannelPolicy) (dir : Direction) (h : FrameHeader) where
  -- The hook, as two verdicts.
  after_registry :
      Result RejectReason (Unit {0})
      → Result FirewallError (Unit {0})
      → Result FirewallError (Unit {0})
  after_registry r k = elim r [ ok u ↦ k | err e ↦ err (by_registry e) ]

  after_registry_ok :
      (r : Result RejectReason (Unit {0})) (k : Result FirewallError (Unit {0}))
      → after_registry r k ≡ ok tt
      → (r ≡ ok tt) × (k ≡ ok tt)
  unfolding after_registry
  after_registry_ok (ok u) k e = (refl, e)
  after_registry_ok (err x) k e = absurd (ground arith)

  composed_hook_ok :
      composed_hook reg (some (decide_channel_policy p)) dir h ≡ ok tt
      → (relay_hook reg dir h ≡ ok tt) × IsPermitted p h.channel h.type
  unfolding composed_hook after_registry verdict
  composed_hook_ok e =
      let (q, r) =
        after_registry_ok (relay_hook reg dir h) (run_policy (some (decide_channel_policy p)) dir h)
          e in
      (q, decide_channel_policy-IsPermitted p dir h (verdict_ok by_policy _ r))

-- A frame that the firewall may let through.
pub record IsScreened (reg : Registries) (p : ChannelPolicy) (raw : List ℕ) : Type 0 where
  pub frame : Frame
  pub parsed : unmarshal_binary raw ≡ ok frame
  pub registered : IsRegistered reg frame.channel frame.type
  pub permitted : IsPermitted p frame.channel frame.type

module _ (reg : Registries) (p : ChannelPolicy) (dir : Direction) (max_size : ℕ) where
  Admitted-IsScreened :
      (raw : List ℕ)
      → Admitted (some (composed_hook reg (some (decide_channel_policy p)))) dir max_size raw
      → IsScreened reg p raw
  unfolding relay_hook verdict
  Admitted-IsScreened raw h =
      let seen = header_of raw h.frame in
      let (q, r) = composed_hook_ok reg p dir seen (verdict_ok rejected _ h.hooked) in
      let (_, s, _) = >>=-eq-ok (check_frame_type reg seen.channel seen.type) _ q in
      record {
        frame = h.frame;
        parsed = h.parsed;
        registered = (check_frame_type_iff reg seen.channel seen.type).0 s;
        permitted = r;
      }

  All-IsScreened :
      (raws : List (List ℕ))
      → All (Admitted (some (composed_hook reg (some (decide_channel_policy p)))) dir max_size) raws
      → All (IsScreened reg p) raws
  All-IsScreened [] h = tt
  All-IsScreened (raw ∷ raws) h = (Admitted-IsScreened raw h.0, All-IsScreened raws h.1)

  -- Whatever arrives and whatever the environment does, every frame that the firewall writes
  -- whole parses, is of a registered channel and type, and is denied by no rule of the policy.
  pub forward-IsScreened :
      (fuel : ℕ) (turns : ℕ → Turn) (s : Source)
      → All
          (IsScreened reg p)
          (forward
            (some (composed_hook reg (some (decide_channel_policy p))))
            dir
            max_size
            fuel
            turns
            s).sent
  forward-IsScreened fuel turns s =
      All-IsScreened _
        (forward-Faithful (some (composed_hook reg (some (decide_channel_policy p)))) dir max_size
          fuel turns s).admitted

-- ===== src/Validator/Rules.antt =====
-- What the registry validator and the firewall's hook admit (impl/go/wirevalidator/validate.go,
-- relayhook.go; impl/go/firewall/policy.go, firewall.go).
use npamp_protocol.Validator.{
  Registries, system_frame_max, contains, contains_pair, check_frame_type,
}
use npamp_protocol.Prelude.{ℕ, ◌≤◌, ◌<◌, ◌≡◌, ◌≢◌, ◌⊎◌, inl, inr, ◌↔◌, refl, ap, arith}
use npamp_protocol.Prelude.{List, [], ◌∷◌, true, false, ◌==◌, leb, Bool-cases}
use npamp_protocol.Prelude.{ok}
use mathlib.Core.List.{Memᴰ}
use mathlib.Core.List.Memᴰ.{head, tail}

-- A number, or a pair of numbers, stands in a list.
abbrev pub IsMember : ℕ → List ℕ → Type 0
IsMember x xs = Memᴰ x xs

abbrev pub IsPairMember : ℕ → ℕ → List (ℕ × ℕ) → Type 0
IsPairMember x y ps = Memᴰ (x, y) ps

contains→IsMember : (x : ℕ) (xs : List ℕ) → contains x xs ≡ true → IsMember x xs
unfolding contains
contains→IsMember x [] h = absurd (ground arith)
contains→IsMember x (y ∷ ys) h = elim (Bool-cases (y == x)) [
  | inl e ↦ head (ground arith)
  | inr e ↦ tail (contains→IsMember x ys (ground arith))
]

IsMember→contains : (x : ℕ) (xs : List ℕ) → IsMember x xs → contains x xs ≡ true
unfolding contains
IsMember→contains x [] h = elim h [ ]
IsMember→contains x (y ∷ ys) (head e) = ground arith
IsMember→contains x (y ∷ ys) (tail m) = ground (arith, IsMember→contains x ys m)

pair_eq : {a b c d : ℕ} → a ≡ c → b ≡ d → ◌≡◌ {A = ℕ × ℕ} (a, b) (c, d)
pair_eq p q = λ i. (p i, q i)

contains_pair→IsPairMember :
    (x y : ℕ) (ps : List (ℕ × ℕ)) → contains_pair x y ps ≡ true → IsPairMember x y ps
unfolding contains_pair
contains_pair→IsPairMember x y [] h = absurd (ground arith)
contains_pair→IsPairMember x y ((a, b) ∷ ps) h = elim (Bool-cases (a == x)) [
  | inl e ↦ elim (Bool-cases (b == y)) [
    | inl e' ↦ head (pair_eq (ground arith) (ground arith))
    | inr e' ↦ tail (contains_pair→IsPairMember x y ps (ground arith))
  ]
  | inr e ↦ tail (contains_pair→IsPairMember x y ps (ground arith))
]

IsPairMember→contains_pair :
    (x y : ℕ) (ps : List (ℕ × ℕ)) → IsPairMember x y ps → contains_pair x y ps ≡ true
unfolding contains_pair
IsPairMember→contains_pair x y [] h = elim h [ ]
IsPairMember→contains_pair x y ((a, b) ∷ ps) (head e) =
    let p : x ≡ a = ap (λ t. t.0) e in let q : y ≡ b = ap (λ t. t.1) e in ground arith
IsPairMember→contains_pair x y ((a, b) ∷ ps) (tail m) =
    ground (arith, IsPairMember→contains_pair x y ps m)

-- The frame types that a channel may carry: its own and the system frames, never zero.
pub record IsRegistered (reg : Registries) (channel type : ℕ) : Type 0 where
  pub nonzero : type ≢ 0
  pub channel_listed : IsMember channel reg.channels
  pub type_listed :
      ((type ≤ system_frame_max) × IsMember type reg.system_frames)
      ⊎ ((system_frame_max < type) × IsPairMember channel type reg.chan_frames)

module _ (reg : Registries) (channel type : ℕ) where
  -- What the tests say, one by one.
  Passes : Type 0
  Passes =
      ((type == 0) ≡ false)
      × (contains channel reg.channels ≡ true)
      × (((leb type system_frame_max ≡ true) × (contains type reg.system_frames ≡ true))
          ⊎ ((leb type system_frame_max ≡ false)
              × (contains_pair channel type reg.chan_frames ≡ true)))

  check_frame_type-Passes : check_frame_type reg channel type ≡ ok tt → Passes
  unfolding check_frame_type Passes
  check_frame_type-Passes h = (
    ground arith,
    ground arith,
    elim (Bool-cases (leb type system_frame_max)) [
      | inl e ↦ inl (e, ground arith)
      | inr e ↦ inr (e, ground arith)
    ],
  )

  Passes-check_frame_type : Passes → check_frame_type reg channel type ≡ ok tt
  unfolding check_frame_type Passes
  Passes-check_frame_type (p, q, inl (e, r)) = rw (p, q, e, r) refl
  Passes-check_frame_type (p, q, inr (e, r)) = rw (p, q, e, r) refl

  -- For every registry, the channel and frame-type check succeeds exactly on a non-zero type of
  -- a listed channel that is a listed system frame or listed for that channel.
  pub check_frame_type_iff :
      (check_frame_type reg channel type ≡ ok tt) ↔ IsRegistered reg channel type
  unfolding Passes
  check_frame_type_iff = (
    λ h.
        let (p, q, r) = check_frame_type-Passes h in
        record {
          nonzero = λ e. ground arith;
          channel_listed = contains→IsMember channel reg.channels q;
          type_listed = elim r [
            | inl (e, m) ↦ inl (ground arith, contains→IsMember type reg.system_frames m)
            | inr (e, m) ↦
                inr (ground arith, contains_pair→IsPairMember channel type reg.chan_frames m)
          ];
        },
    λ h. Passes-check_frame_type (
      ground (arith, h.nonzero),
      IsMember→contains channel reg.channels h.channel_listed,
      elim h.type_listed [
        | inl (e, m) ↦ inl (ground arith, IsMember→contains type reg.system_frames m)
        | inr (e, m) ↦ inr (ground arith, IsPairMember→contains_pair channel type reg.chan_frames m)
      ],
    ),
  )

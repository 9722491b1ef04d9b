-- ===== src/Tlv/Critical.antt =====
-- What CheckMustUnderstand lets pass (impl/go/tlv.go).
use npamp_protocol.Tlv.{Tlv, forward_incompatible, check_must_understand, unknown_critical_tlv}
use npamp_protocol.Prelude.{
  ℕ, ◌^◌, ◌<◌, ◌≤◌, ◌≡◌, ◌≢◌, ◌⊎◌, ◌↔◌, refl, ap, sym, ◌∙◌, arith, List, [], ◌∷◌, All,
}
use npamp_protocol.Prelude.{Bool, true, false, Bool-cases, inl, inr, leb, ok, err}
use npamp_protocol.Prelude.Bits.{and_0x8000}

-- The type of a TLV is a uint16.
abbrev pub IsTyped : Tlv → Type 0
IsTyped t = t.type < 2 ^ 16

-- A type from 0x8000 on, the upper half of the 16 bits, is recognised.
abbrev pub IsUnderstood : (ℕ → Bool) → Tlv → Type 0
IsUnderstood recognized t = 0x8000 ≤ t.type → recognized t.type ≡ true

-- The first TLV that is not understood is of this type.
abbrev pub FirstUnknown : (ℕ → Bool) → ℕ → List Tlv → Type 0
FirstUnknown recognized typ [] = ⊥
FirstUnknown recognized typ (t ∷ tlvs) =
    ((0x8000 ≤ t.type) × (recognized t.type ≡ false) × (t.type ≡ typ))
    ⊎ (IsUnderstood recognized t × FirstUnknown recognized typ tlvs)

forward_incompatible-leb : (t : Tlv) → IsTyped t → forward_incompatible t.type ≡ leb 0x8000 t.type
unfolding forward_incompatible
forward_incompatible-leb t h = rw (and_0x8000 t.type h) (ground arith)

module _ (recognized : ℕ → Bool) where
  abbrev IsUnknown : Tlv → Type 0
  IsUnknown t = (0x8000 ≤ t.type) × (recognized t.type ≡ false)

  front_cases : (t : Tlv) → IsUnknown t ⊎ IsUnderstood recognized t
  front_cases t = elim (Bool-cases (recognized t.type)) [
    | inl e ↦ inr (λ p. e)
    | inr e ↦ elim (Bool-cases (leb 0x8000 t.type)) [
      | inl l ↦ inl (ground arith, e)
      | inr l ↦ inr (λ p. absurd (ground arith))
    ]
  ]

  check-unknown :
      (t : Tlv) (tlvs : List Tlv)
      → IsTyped t
      → IsUnknown t
      → check_must_understand (t ∷ tlvs) recognized ≡ err (unknown_critical_tlv t.type)
  unfolding check_must_understand
  check-unknown t tlvs typed u =
      rw (forward_incompatible-leb t typed, u.1) (let high = u.0 in ground arith)

  check-understood :
      (t : Tlv) (tlvs : List Tlv)
      → IsTyped t
      → IsUnderstood recognized t
      → check_must_understand (t ∷ tlvs) recognized ≡ check_must_understand tlvs recognized
  unfolding check_must_understand
  check-understood t tlvs typed u =
      rw (forward_incompatible-leb t typed) (elim (Bool-cases (leb 0x8000 t.type)) [
        | inl l ↦ let known = u (ground arith) in rw (l, known) refl
        | inr l ↦ rw l refl
      ])

  absurd_front : (t : Tlv) → IsUnknown t → IsUnderstood recognized t → ⊥
  absurd_front t u k = let known = k u.0 in let unknown = u.1 in cc

  passes :
      (tlvs : List Tlv)
      → All IsTyped tlvs
      → (check_must_understand tlvs recognized ≡ ok tt) ↔ All (IsUnderstood recognized) tlvs
  passes [] typed = (λ h. tt, λ h. unfold check_must_understand in refl)
  passes (t ∷ tlvs) typed = elim (front_cases t) [
    | inl u ↦ (
      λ h. absurd (let e = check-unknown t tlvs typed.0 u in cc),
      λ h. absurd (absurd_front t u h.0),
    )
    | inr k ↦
        let e = check-understood t tlvs typed.0 k in
        let rest = passes tlvs typed.1 in (λ h. (k, rest.0 (sym e ∙ h)), λ h. e ∙ rest.1 h.1)
  ]

  nothing-err : (typ : ℕ) → check_must_understand [] recognized ≢ err (unknown_critical_tlv typ)
  unfolding check_must_understand
  nothing-err typ h = cc

  fails :
      (tlvs : List Tlv) (typ : ℕ)
      → All IsTyped tlvs
      → (check_must_understand tlvs recognized ≡ err (unknown_critical_tlv typ))
        ↔ FirstUnknown recognized typ tlvs
  fails [] typ typed = (λ h. absurd (nothing-err typ h), λ h. absurd h)
  fails (t ∷ tlvs) typ typed = elim (front_cases t) [
    | inl u ↦
        let e = check-unknown t tlvs typed.0 u in
        (
          λ h. inl (u.0, u.1, (let same = sym e ∙ h in cc)),
          λ h. elim h [
            | inl first ↦ e ∙ ap (λ (n : ℕ). err (unknown_critical_tlv n)) first.2
            | inr (k, later) ↦ absurd (absurd_front t u k)
          ],
        )
    | inr k ↦
        let e = check-understood t tlvs typed.0 k in
        let rest = fails tlvs typ typed.1 in
        (
          λ h. inr (k, rest.0 (sym e ∙ h)),
          λ h. elim h [
            | inl first ↦ absurd (absurd_front t (first.0, first.1) k)
            | inr (_, later) ↦ e ∙ rest.1 later
          ],
        )
  ]

-- On TLVs of 16-bit types and whatever the receiver recognises: the check passes exactly if every
-- type from 0x8000 on is recognised, and it fails with a type exactly if that is the type of the
-- first TLV from 0x8000 on that is not recognised.
pub check_must_understand_iff :
    (recognized : ℕ → Bool) (tlvs : List Tlv)
    → All IsTyped tlvs
    → ((check_must_understand tlvs recognized ≡ ok tt) ↔ All (IsUnderstood recognized) tlvs)
      × ((typ : ℕ)
          → (check_must_understand tlvs recognized ≡ err (unknown_critical_tlv typ))
            ↔ FirstUnknown recognized typ tlvs)
check_must_understand_iff recognized tlvs typed =
    (passes recognized tlvs typed, λ typ. fails recognized tlvs typ typed)

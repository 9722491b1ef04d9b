-- ===== src/Tlv/RoundTrip.antt =====
-- DecodeTLVs reads back what Encode wrote, up to the cap.
use mathlib.Core.List.{append_assoc, append-nil}
use native.Mathlib.Nat.{mod-eq_of_lt, zero-add, add_assoc}
use npamp_protocol.Tlv.{
  Tlv, too_many_tlvs, encode, encode_all, decode_one, decode_loop, decode_tlvs, max_tlvs_per_frame,
}
use npamp_protocol.Tlv.Encode.{encode_all-append, encode_all-cons, length-encode}
use npamp_protocol.Prelude.{ℕ, zero, suc, ◌+◌, ◌-◌, ◌^◌, ◌≤◌, ◌<◌, ◌≡◌, ◌∙◌, arith, ap, ◌%◌}
use npamp_protocol.Prelude.{List, [], ◌∷◌, ◌++◌, length, ok, err, All, if◌then◌else◌, leb}
use npamp_protocol.Prelude.{length-append, take-append, drop-append, Bool-cases, inl, inr}
use npamp_protocol.Prelude.Bytes.{get_be, put_be, get_be-put_be}

-- A TLV whose type and length fit sixteen bits.
pub record IsWireTlv (t : Tlv) : Type 0 where
  pub type_fits : t.type < 2 ^ 16
  pub value_fits : length t.value < 2 ^ 16

decode_one-encode :
    (t : Tlv) (rest : List ℕ) → IsWireTlv t → decode_one (encode t [] ++ rest) ≡ ok (t, rest)
unfolding decode_one encode put_be
decode_one-encode t rest w =
    let typ : get_be (put_be 2 t.type) ≡ t.type = get_be-put_be 2 t.type w.type_fits in
    let ln : get_be (put_be 2 (length t.value % 2 ^ 16)) ≡ length t.value =
      get_be-put_be 2 (length t.value % 2 ^ 16) (omega arith) ∙ mod-eq_of_lt w.value_fits in
    let four : 4 + length t.value ≡ suc (suc (suc (suc (length t.value)))) = omega arith in
    let back : suc (suc (suc (suc (length t.value)))) - 4 ≡ length t.value = omega arith in
    rw (typ, ln, four, back, take-append t.value rest, drop-append t.value rest)
      (ground (arith, length-append t.value rest))

-- A round of the loop on an encoded TLV.
decode_loop_step :
    (fuel : ℕ) (out : List Tlv) (t : Tlv) (rest : List ℕ)
    → IsWireTlv t
    → decode_loop (suc fuel) out (encode t [] ++ rest) ≡ (
        if leb (length out + 1) max_tlvs_per_frame
        then decode_loop fuel (out ++ (t ∷ [])) rest
        else err too_many_tlvs)
decode_loop_step fuel out t rest w =
    let one = decode_one-encode t rest w in
    unfold decode_loop encode put_be in rw one (ground (arith, length-append out (t ∷ [])))

encode_all_cons :
    (t : Tlv) (tlvs : List Tlv) → encode_all [] (t ∷ tlvs) ≡ encode t [] ++ encode_all [] tlvs
encode_all_cons t tlvs = encode_all-cons [] t tlvs ∙ encode_all-append (encode t []) tlvs

length-encode_all_cons :
    (t : Tlv) (tlvs : List Tlv)
    → length (encode_all [] (t ∷ tlvs)) ≡ 4 + length t.value + length (encode_all [] tlvs)
length-encode_all_cons t tlvs =
    rw (encode_all_cons t tlvs)
      (omega (arith, length-append (encode t []) (encode_all [] tlvs), length-encode t))

decode_loop-encode_all :
    (fuel : ℕ) (out tlvs : List Tlv)
    → All IsWireTlv tlvs
    → length out ≤ max_tlvs_per_frame
    → length (encode_all [] tlvs) ≤ fuel
    → decode_loop fuel out (encode_all [] tlvs) ≡ (
        if leb (length out + length tlvs) max_tlvs_per_frame
        then ok (out ++ tlvs)
        else err too_many_tlvs)
decode_loop-encode_all fuel out [] w p f =
    rw (append-nil) (unfold decode_loop encode_all in ground arith)
decode_loop-encode_all zero out (t ∷ tlvs) w p f =
    absurd (omega (arith, ap length (encode_all_cons t tlvs), length-encode_all_cons t tlvs))
decode_loop-encode_all (suc fuel) out (t ∷ tlvs) w p f =
    let ih = decode_loop-encode_all fuel (out ++ (t ∷ [])) tlvs w.1 in
    let size = length-append out (t ∷ []) in
    let shorter = length-encode_all_cons t tlvs in
    rw (encode_all_cons t tlvs, decode_loop_step fuel out t (encode_all [] tlvs) w.0)
      (elim (Bool-cases (leb (length out + 1) max_tlvs_per_frame)) [
        | inl e ↦
            rw
              (e, ih (ground (arith, size)) (omega (arith, shorter)), append_assoc, size, add_assoc)
              (ap
                (λ (n : ℕ).
                  if leb (length out + n) max_tlvs_per_frame
                  then ok (out ++ (t ∷ tlvs))
                  else err too_many_tlvs)
                (omega arith))
        | inr e ↦ rw e (ground arith)
      ])

-- From the encoding of TLVs whose types and lengths fit 16 bits, the decoder returns them if
-- the cap allows that many, and the error for too many otherwise.
pub decode_tlvs-encode_all :
    (tlvs : List Tlv)
    → All IsWireTlv tlvs
    → decode_tlvs (encode_all [] tlvs)
      ≡ (if leb (length tlvs) max_tlvs_per_frame then ok tlvs else err too_many_tlvs)
unfolding decode_tlvs
decode_tlvs-encode_all tlvs w =
    decode_loop-encode_all (length (encode_all [] tlvs)) [] tlvs w (omega arith) (omega arith)
    ∙ rw zero-add

-- ===== src/Bridge/RoundTrip.antt =====
-- ValidateBridgePayload reads back what EncodeBridgeFrame wrote.
use mathlib.Core.List.{append_assoc}
use native.Mathlib.Nat.{mod-eq_of_lt}
use npamp_protocol.Bridge.{
  SafetyLabel, BridgeFrame, encode_envelope_value, encode_safety_value, encode_safety,
  encode_bridge_frame, split_safety, check_correlation, bridge_kind_for_frame,
  validate_bridge_payload, bridge_envelope, safety_label, bridge_notify,
}
use npamp_protocol.Bridge.Values.{
  decode-encode_envelope_value, decode-encode_safety_value, length-encode_envelope_value,
  length-encode_safety_value,
}
use npamp_protocol.Tlv.{Tlv, encode}
use npamp_protocol.Tlv.Encode.{encode-append}
use npamp_protocol.Tlv.RoundTrip.{IsWireTlv}
use npamp_protocol.Prelude.{
  ℕ, suc, ◌+◌, ◌-◌, ◌%◌, ◌^◌, ◌<◌, ◌≤◌, ◌≡◌, ◌≢◌, ◌∙◌, refl, sym, ap, arith,
}
use npamp_protocol.Prelude.{List, [], ◌++◌, length, drop, Option, none, some, ok}
use npamp_protocol.Prelude.{take-append, drop-append, length-append, >>=-eq-ok, ok-injective}
use npamp_protocol.Prelude.{Bool-cases, inl, inr, not, false, ◌&&◌, ltb, ◌==◌}
use npamp_protocol.Prelude.Bytes.{get_be, put_be, get_be-put_be, slice}

-- What is read at the front of the octets that follow an encoded TLV.
record Reads (buf : List ℕ) (t : Tlv) (rest : List ℕ) : Type 0 where
  type : get_be (slice buf 0 2) ≡ t.type
  size : get_be (slice buf 2 4) ≡ length t.value
  value : slice buf 4 (4 + length t.value) ≡ t.value
  tail : drop (4 + length t.value) buf ≡ rest
  long : length buf ≡ 4 + length t.value + length rest

encode-Reads : (t : Tlv) (rest : List ℕ) → IsWireTlv t → Reads (encode t [] ++ rest) t rest
unfolding encode put_be
encode-Reads t rest w =
    let four : 4 + length t.value ≡ suc (suc (suc (suc (length t.value)))) = omega arith in
    let back : suc (suc (suc (suc (length t.value)))) - 4 ≡ length t.value = omega arith in
    record {
      type = get_be-put_be 2 t.type w.type_fits;
      size = get_be-put_be 2 (length t.value % 2 ^ 16) (omega arith) ∙ mod-eq_of_lt w.value_fits;
      value = rw (four, back) (take-append t.value rest);
      tail = rw four (drop-append t.value rest);
      long = omega (arith, length-append t.value rest);
    }

abbrev pub BeginsWithLabel : List ℕ → Type 0
BeginsWithLabel foreign = (4 ≤ length foreign) × (get_be (slice foreign 0 2) ≡ safety_label)

label_test :
    (size typ : ℕ)
    → ¬ ((4 ≤ size) × (typ ≡ safety_label))
    → (not (ltb size 4) && (typ == safety_label)) ≡ false
label_test size typ h = elim (Bool-cases (not (ltb size 4) && (typ == safety_label))) [
  | inl e ↦ absurd (h (ground arith, ground arith))
  | inr e ↦ e
]

split_safety-none :
    (foreign : List ℕ) → ¬ BeginsWithLabel foreign → split_safety foreign ≡ ok (none, foreign)
unfolding split_safety
split_safety-none foreign h = rw (label_test (length foreign) (get_be (slice foreign 0 2)) h) refl

split_safety-some :
    (s : SafetyLabel) (v foreign : List ℕ)
    → encode_safety_value s ≡ ok v
    → split_safety (encode (record { type = safety_label; value = v }) [] ++ foreign)
      ≡ ok (some s, foreign)
unfolding split_safety
split_safety-some s v foreign h =
    let fits = length-encode_safety_value s v h in
    let r =
      encode-Reads (record { type = safety_label; value = v }) foreign
        (record { type_fits = omega arith; value_fits = fits }) in
    rw (r.type, r.size, r.value, r.tail, r.long, decode-encode_safety_value s v h) (ground arith)

-- CorrelationID is empty on a notification and on no other frame.
abbrev pub CorrelationFits : ℕ → List ℕ → Type 0
CorrelationFits ft corr =
    ((ft ≡ bridge_notify) → length corr ≡ 0) × ((ft ≢ bridge_notify) → 0 < length corr)

check_correlation_ok :
    (ft : ℕ) (corr : List ℕ) → CorrelationFits ft corr → check_correlation ft corr ≡ ok tt
unfolding check_correlation
check_correlation_ok ft corr h = elim (Bool-cases (ft == bridge_notify)) [
  | inl e ↦ rw (e, h.0 (ground arith)) refl
  | inr e ↦ let some_corr = h.1 (λ p. ground arith) in rw e (ground arith)
]

-- A frame that the validator reads back from its encoding.
pub record IsReadable (ft : ℕ) (f : BridgeFrame) : Type 0 where
  pub kind_agrees : bridge_kind_for_frame ft ≡ some f.envelope.kind
  pub protocol_fits : f.envelope.protocol < 2 ^ 16
  pub correlation_fits : CorrelationFits ft f.envelope.correlation_id
  pub apart : (f.safety ≡ none) → ¬ BeginsWithLabel f.foreign

split_safety-encode :
    (safety : Option SafetyLabel) (foreign out w : List ℕ)
    → ((safety ≡ none) → ¬ BeginsWithLabel foreign)
    → encode_safety safety out ≡ ok w
    → (rest : List ℕ) × ((w ++ foreign ≡ out ++ rest) × (split_safety rest ≡ ok (safety, foreign)))
unfolding encode_safety
split_safety-encode none foreign out w h k =
    (foreign, (ap (λ t. t ++ foreign) (sym (ok-injective k)), split_safety-none foreign (h refl)))
split_safety-encode (some s) foreign out w h k =
    let (v, k0, k1) = >>=-eq-ok (encode_safety_value s) _ k in
    let t : Tlv = record { type = safety_label; value = v } in
    let e : w ≡ out ++ encode t [] = sym (ok-injective k1) ∙ encode-append t out in
    (
      encode t [] ++ foreign,
      (
        ap (λ u. u ++ foreign) e ∙ append_assoc out (encode t []) foreign,
        split_safety-some s v foreign k0,
      ),
    )

validate-wire :
    (ft : ℕ) (f : BridgeFrame) (buf v rest : List ℕ)
    → IsReadable ft f
    → encode_envelope_value f.envelope ≡ ok v
    → Reads buf (record { type = bridge_envelope; value = v }) rest
    → split_safety rest ≡ ok (f.safety, f.foreign)
    → validate_bridge_payload ft buf ≡ ok f
unfolding validate_bridge_payload
validate-wire ft f buf v rest h k r split =
    rw
      (
        h.kind_agrees,
        r.type,
        r.size,
        r.value,
        r.tail,
        r.long,
        decode-encode_envelope_value f.envelope v h.protocol_fits k,
        check_correlation_ok ft f.envelope.correlation_id h.correlation_fits,
        split,
      )
      (ground arith)

-- ValidateBridgePayload returns the frame that EncodeBridgeFrame wrote, with the foreign message as it
-- was, if the kind is the one of the frame type, the protocol fits 16 bits, the correlation identifier
-- is empty exactly on a notification, and a foreign message that no label precedes does not itself
-- begin with four octets or more of which the first two are the type of a label.
pub validate_bridge_payload-encode_bridge_frame :
    (ft : ℕ) (f : BridgeFrame) (payload : List ℕ)
    → IsReadable ft f
    → encode_bridge_frame f ≡ ok payload
    → validate_bridge_payload ft payload ≡ ok f
unfolding encode_bridge_frame
validate_bridge_payload-encode_bridge_frame ft f payload h k =
    let (v, k0, k1) = >>=-eq-ok (encode_envelope_value f.envelope) _ k in
    let t : Tlv = record { type = bridge_envelope; value = v } in
    let (w, k2, k3) = >>=-eq-ok (encode_safety f.safety (encode t [])) _ k1 in
    let (rest, (e, split)) = split_safety-encode f.safety f.foreign (encode t []) w h.apart k2 in
    let fits = length-encode_envelope_value f.envelope v k0 in
    let wire : IsWireTlv t = record { type_fits = omega arith; value_fits = fits } in
    rw (← ok-injective k3, e) (validate-wire ft f _ v rest h k0 (encode-Reads t rest wire) split)

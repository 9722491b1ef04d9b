-- ===== src/Bridge/Values.antt =====
-- The values that the Bridge encoder writes, read back.
use npamp_protocol.Bridge.{
  Envelope, SafetyLabel, encode_envelope_value, decode_envelope_value, encode_safety_value,
  decode_safety_value, oversized,
}
use npamp_protocol.Prelude.{ℕ, suc, ◌+◌, ◌-◌, ◌^◌, ◌<◌, ◌≡◌, ◌∙◌, refl, sym, ap, arith}
use npamp_protocol.Prelude.{List, [], ◌∷◌, ◌++◌, length, get_or, drop, ok, fail_if, fail_if-ok, ltb}
use npamp_protocol.Prelude.{take_all, take-append, length-append, >>=-eq-ok, ok-injective}
use npamp_protocol.Prelude.Bytes.{get_be, put_be, get_be-put_be}

get_or-append : (xs : List ℕ) (y : ℕ) (ys : List ℕ) → get_or (xs ++ (y ∷ ys)) (length xs) 0 ≡ y
get_or-append [] y ys = refl
get_or-append (x ∷ xs) y ys = get_or-append xs y ys

drop-append_suc : (xs : List ℕ) (y : ℕ) (ys : List ℕ) → drop (suc (length xs)) (xs ++ (y ∷ ys)) ≡ ys
drop-append_suc [] y ys = refl
drop-append_suc (x ∷ xs) y ys = drop-append_suc xs y ys

decode_envelope_value-wire :
    (e : Envelope)
    → e.protocol < 2 ^ 16
    → decode_envelope_value (
        put_be 2 e.protocol
        ++ (e.kind
            ∷ e.content_type
            ∷ e.flags
            ∷ length e.correlation_id
            ∷ (e.correlation_id ++ (length e.method ∷ e.method))))
      ≡ ok e
unfolding decode_envelope_value put_be
decode_envelope_value-wire e h =
    let n = length e.correlation_id in
    let k = length e.method in
    let proto : get_be (put_be 2 e.protocol) ≡ e.protocol = get_be-put_be 2 e.protocol h in
    let six : 6 + n ≡ suc (suc (suc (suc (suc (suc n))))) = omega arith in
    let seven : suc (suc (suc (suc (suc (suc n))))) + 1
        ≡ suc (suc (suc (suc (suc (suc (suc n)))))) =
      omega arith in
    let corr_back : suc (suc (suc (suc (suc (suc n))))) - 6 ≡ n = omega arith in
    let method_back : suc (suc (suc (suc (suc (suc (suc n))))))
          + k
          - suc (suc (suc (suc (suc (suc (suc n))))))
        ≡ k =
      omega arith in
    let size = length-append e.correlation_id (k ∷ e.method) in
    rw
      (
        proto,
        six,
        seven,
        get_or-append e.correlation_id k e.method,
        corr_back,
        method_back,
        take-append e.correlation_id (k ∷ e.method),
        drop-append_suc e.correlation_id k e.method,
        take_all e.method,
      )
      (ground (arith, size))

decode_safety_value-wire :
    (s : SafetyLabel) → decode_safety_value (s.effect ∷ length s.scope ∷ s.scope) ≡ ok s
unfolding decode_safety_value
decode_safety_value-wire s =
    let back : 2 + length s.scope - 2 ≡ length s.scope = omega arith in
    rw (back, take_all s.scope) (ground arith)

-- The envelope that the encoder wrote.
pub decode-encode_envelope_value :
    (e : Envelope) (v : List ℕ)
    → e.protocol < 2 ^ 16
    → encode_envelope_value e ≡ ok v
    → decode_envelope_value v ≡ ok e
unfolding encode_envelope_value
decode-encode_envelope_value e v h k =
    let (_, _, k0) = >>=-eq-ok (fail_if (ltb 255 (length e.correlation_id)) oversized) _ k in
    let (_, _, k1) = >>=-eq-ok (fail_if (ltb 255 (length e.method)) oversized) _ k0 in
    sym (ap decode_envelope_value (ok-injective k1)) ∙ decode_envelope_value-wire e h

-- The label that the encoder wrote.
pub decode-encode_safety_value :
    (s : SafetyLabel) (v : List ℕ) → encode_safety_value s ≡ ok v → decode_safety_value v ≡ ok s
unfolding encode_safety_value
decode-encode_safety_value s v k =
    let (_, _, k0) = >>=-eq-ok (fail_if (ltb 255 (length s.scope)) oversized) _ k in
    sym (ap decode_safety_value (ok-injective k0)) ∙ decode_safety_value-wire s

-- A length octet fits, so a value is far from the sixteen bits of a TLV's length.
pub length-encode_envelope_value :
    (e : Envelope) (v : List ℕ) → encode_envelope_value e ≡ ok v → length v < 2 ^ 16
unfolding encode_envelope_value put_be
length-encode_envelope_value e v k =
    let (_, h0, k0) = >>=-eq-ok (fail_if (ltb 255 (length e.correlation_id)) oversized) _ k in
    let (_, h1, k1) = >>=-eq-ok (fail_if (ltb 255 (length e.method)) oversized) _ k0 in
    let size = length-append e.correlation_id (length e.method ∷ e.method) in
    let long = ap length (ok-injective k1) in
    let corr = fail_if-ok (ltb 255 (length e.correlation_id)) oversized h0 in
    let method = fail_if-ok (ltb 255 (length e.method)) oversized h1 in
    ground (arith, size, long, corr, method)

pub length-encode_safety_value :
    (s : SafetyLabel) (v : List ℕ) → encode_safety_value s ≡ ok v → length v < 2 ^ 16
unfolding encode_safety_value
length-encode_safety_value s v k =
    let (_, h0, k0) = >>=-eq-ok (fail_if (ltb 255 (length s.scope)) oversized) _ k in
    let long = ap length (ok-injective k0) in
    let scope = fail_if-ok (ltb 255 (length s.scope)) oversized h0 in ground (arith, long, scope)

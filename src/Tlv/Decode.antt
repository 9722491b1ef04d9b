-- ===== src/Tlv/Decode.antt =====
-- DecodeTLVs on any input: termination, the bound on the count, and that the decoder is strict.
use npamp_protocol.Tlv.{
  Tlv, stuck, encode, encode_all, decode_one, decode_loop, decode_tlvs, max_tlvs_per_frame,
}
use npamp_protocol.Prelude.{ℕ, zero, suc, ◌+◌, ◌^◌, ◌≤◌, ◌<◌, ◌≡◌, refl, sym, ◌∙◌, arith, ap, ◌%◌}
use npamp_protocol.Prelude.{List, [], ◌∷◌, ◌++◌, length, ok, err, drop, All}
use npamp_protocol.Prelude.{length-drop, Result-cases, >>=-eq-ok}
use npamp_protocol.Prelude.{◌≢◌, inl, inr}
use npamp_protocol.Prelude.Bytes.{
  get_be, slice, IsByte, slice-append, put_be, put_be-slice, slice-append-drop, length-slice,
  get_be-lt, slice-IsByte,
}
use npamp_protocol.Prelude.{All-drop, ok-injective}
use npamp_protocol.Tlv.Encode.{encode_all-snoc, encode-append}
use mathlib.Core.List.{append_assoc, append-nil}
use native.Mathlib.Nat.{mod-eq_of_lt}

-- All that one successful round has found.
pub record Takes (buf : List ℕ) (t : Tlv) (rest : List ℕ) : Type 0 where
  pub long : 4 ≤ length buf
  pub there : 4 + get_be (slice buf 2 4) ≤ length buf
  pub type : t.type ≡ get_be (slice buf 0 2)
  pub value : t.value ≡ slice buf 4 (4 + get_be (slice buf 2 4))
  pub tail : rest ≡ drop (4 + get_be (slice buf 2 4)) buf

pub decode_one-Takes :
    (buf : List ℕ) (t : Tlv) (rest : List ℕ) → decode_one buf ≡ ok (t, rest) → Takes buf t rest
unfolding decode_one
decode_one-Takes buf t rest h = ground arith

pub decode_one-shorter :
    (buf : List ℕ) (t : Tlv) (rest : List ℕ)
    → decode_one buf ≡ ok (t, rest)
    → length rest < length buf
decode_one-shorter buf t rest h =
    let k = decode_one-Takes buf t rest h in
    rw k.tail (omega (arith, k.long, length-drop (4 + get_be (slice buf 2 4)) buf))

decode_one-ne-stuck : (buf : List ℕ) → decode_one buf ≢ err stuck
unfolding decode_one
decode_one-ne-stuck buf h = ground arith

decode_loop-ne-stuck :
    (fuel : ℕ) (out : List Tlv) (buf : List ℕ)
    → length buf ≤ fuel
    → decode_loop fuel out buf ≢ err stuck
unfolding decode_loop
decode_loop-ne-stuck fuel out [] h = λ e. cc
decode_loop-ne-stuck zero out (b ∷ bs) h = absurd (omega arith)
decode_loop-ne-stuck (suc fuel) out (b ∷ bs) h = elim (Result-cases (decode_one (b ∷ bs))) [
  | inr (x, r) ↦ rw r (λ e. decode_one-ne-stuck (b ∷ bs) (r ∙ cc))
  | inl ((t, rest), r) ↦
      let shorter = decode_one-shorter (b ∷ bs) t rest r in
      rw r
        (ground (arith, decode_loop-ne-stuck fuel (out ++ (t ∷ [])) rest (omega (arith, shorter))))
]

-- DecodeTLVs ends on every input.
pub decode_tlvs-ne-stuck : (buf : List ℕ) → decode_tlvs buf ≢ err stuck
unfolding decode_tlvs
decode_tlvs-ne-stuck buf = decode_loop-ne-stuck (length buf) [] buf (omega arith)

-- A successful round, and the loop after it.
record Continues (fuel : ℕ) (out : List Tlv) (buf : List ℕ) (tlvs : List Tlv) : Type 0 where
  head : Tlv
  rest : List ℕ
  one : decode_one buf ≡ ok (head, rest)
  few : length (out ++ (head ∷ [])) ≤ max_tlvs_per_frame
  more : decode_loop fuel (out ++ (head ∷ [])) rest ≡ ok tlvs

decode_loop-Continues :
    (fuel : ℕ) (out : List Tlv) (b : ℕ) (bs : List ℕ) (tlvs : List Tlv)
    → decode_loop (suc fuel) out (b ∷ bs) ≡ ok tlvs
    → Continues fuel out (b ∷ bs) tlvs
unfolding decode_loop
decode_loop-Continues fuel out b bs tlvs h =
    let ((t, rest), one, next) = >>=-eq-ok (decode_one (b ∷ bs)) _ h in
    record { head = t; rest = rest; one = one; few = ground arith; more = ground arith }

decode_loop-length :
    (fuel : ℕ) (out : List Tlv) (buf : List ℕ) (tlvs : List Tlv)
    → length out ≤ max_tlvs_per_frame
    → decode_loop fuel out buf ≡ ok tlvs
    → length tlvs ≤ max_tlvs_per_frame
decode_loop-length fuel out [] tlvs p h = unfold decode_loop in ground arith
decode_loop-length zero out (b ∷ bs) tlvs p h = unfold decode_loop in cc
decode_loop-length (suc fuel) out (b ∷ bs) tlvs p h =
    let c = decode_loop-Continues fuel out b bs tlvs h in
    decode_loop-length fuel (out ++ (c.head ∷ [])) c.rest tlvs c.few c.more

-- The decoder returns no more TLVs than the cap.
pub decode_tlvs-length :
    (buf : List ℕ) (tlvs : List Tlv) → decode_tlvs buf ≡ ok tlvs → length tlvs ≤ max_tlvs_per_frame
unfolding decode_tlvs
decode_tlvs-length buf tlvs h = decode_loop-length (length buf) [] buf tlvs (omega arith) h

-- A round takes the encoding of the TLV that it returns off the front of the buffer.
encode-decode_one :
    (buf : List ℕ) (t : Tlv) (rest : List ℕ)
    → All IsByte buf
    → decode_one buf ≡ ok (t, rest)
    → encode t [] ++ rest ≡ buf
unfolding encode
encode-decode_one buf t rest bytes h =
    let k = decode_one-Takes buf t rest h in
    let n = 4 + get_be (slice buf 2 4) in
    let type_field : put_be 2 t.type ≡ slice buf 0 2 =
      rw k.type (put_be-slice buf 0 2 bytes (omega arith) (omega (arith, k.long))) in
    let size : length t.value ≡ get_be (slice buf 2 4) =
      rw k.value (length-slice buf 4 n (omega arith) k.there ∙ omega arith) in
    let declared : get_be (slice buf 2 4) < 65536 = omega (
      arith,
      get_be-lt (slice buf 2 4) (slice-IsByte buf 2 4 bytes),
      ap (λ (l : ℕ). 256 ^ l) (length-slice buf 2 4 (omega arith) k.long),
    ) in
    let len_field : put_be 2 (length t.value % 2 ^ 16) ≡ slice buf 2 4 =
      rw (size, mod-eq_of_lt declared) (put_be-slice buf 2 4 bytes (omega arith) k.long) in
    (λ i. ((type_field i ++ len_field i) ++ k.value i) ++ k.tail i)
    ∙ rw
        (
          slice-append buf 0 2 4 (omega arith) (omega arith),
          slice-append buf 0 4 n (omega arith) (omega arith),
        )
        (slice-append-drop buf n)

decode_loop_sound :
    (fuel : ℕ) (out : List Tlv) (buf : List ℕ) (tlvs : List Tlv)
    → All IsByte buf
    → decode_loop fuel out buf ≡ ok tlvs
    → encode_all [] tlvs ≡ encode_all [] out ++ buf
decode_loop_sound fuel out [] tlvs bytes h =
    unfold decode_loop in rw append-nil (ap (encode_all []) (sym (ok-injective h)))
decode_loop_sound zero out (b ∷ bs) tlvs bytes h = unfold decode_loop in cc
decode_loop_sound (suc fuel) out (b ∷ bs) tlvs bytes h =
    let c = decode_loop-Continues fuel out b bs tlvs h in
    decode_loop_sound fuel (out ++ (c.head ∷ [])) c.rest tlvs
      (rw (decode_one-Takes (b ∷ bs) c.head c.rest c.one).tail
        (All-drop IsByte (4 + get_be (slice (b ∷ bs) 2 4)) (b ∷ bs) bytes))
      c.more
    ∙ rw (encode_all-snoc, encode-append c.head (encode_all [] out), append_assoc)
        (ap (λ e. encode_all [] out ++ e) (encode-decode_one (b ∷ bs) c.head c.rest bytes c.one))

-- An octet string that the decoder accepts is the concatenation of the encodings of the TLVs
-- that it returns.
pub encode_all-decode_tlvs :
    (buf : List ℕ) (tlvs : List Tlv)
    → All IsByte buf
    → decode_tlvs buf ≡ ok tlvs
    → encode_all [] tlvs ≡ buf
unfolding decode_tlvs
encode_all-decode_tlvs buf tlvs bytes h =
    decode_loop_sound (length buf) [] buf tlvs bytes h ∙ unfold encode_all in refl

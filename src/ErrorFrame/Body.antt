-- ===== src/ErrorFrame/Body.antt =====
-- EncodeErrorBody and DecodeErrorBody undo each other, as far as the decoder's lengths reach.
pub mod Parsing
use npamp_protocol.ErrorFrame.Body.Parsing.{
  read_bstr_strict, split_at, first_octets, decode_error_body-Parsed,
}
pub mod Headers
use npamp_protocol.ErrorFrame.Body.Headers.{
  encode_error_body_octets, read_uint-HeadOf, HeadOf-read_uint, HeadOf-unmasked, read_bstr-encode,
  get_or-length, drop_past,
}
use mathlib.Core.List.{append-nil}
use Prim.Native.Nat.{bit_and}
use npamp_protocol.Cbor.{encode, encode_head, byte_less}
use npamp_protocol.Cbor.Head.{
  head_4, head_8, HeadOf, HeadBytes, HeadOf-HeadBytes, encode_head-HeadOf,
}
use npamp_protocol.Cbor.Decoder.{decode_arg}
use npamp_protocol.ErrorFrame.{
  malformed_error_body, encode_error_body, decode_error_body, read_uint, read_bstr, read_uint_arg,
  expect_key,
}
use npamp_protocol.Prelude.{
  ℕ, zero, suc, ◌+◌, ◌-◌, ◌/◌, ◌^◌, ◌<◌, ◌≤◌, ◌≡◌, refl, ◌∙◌, ap, arith, false, ltb,
}
use npamp_protocol.Prelude.{
  List, [], ◌∷◌, ◌++◌, length, ok, err, take, drop, All, get_or, length-append, not, ◌||◌, ◌==◌,
  ◌%◌, >>=-eq-ok, fail_if, fail_if-ok, ok_pair, take-take-drop, leb, All-drop, length-drop,
  take_all,
}
use native.Mathlib.Decide.{dec_lt}
use npamp_protocol.Prelude.Bits.{and_0x1f}
use npamp_protocol.Prelude.Bytes.{slice, IsByte, slice_middle, length-slice}

-- A body that EncodeErrorBody wrote is read back with its code and its context, if the code is an
-- octet and the context shorter than 2 ^ 16.
pub decode_error_body-encode_error_body :
    (code : ℕ) (ctx : List ℕ)
    → code < 256
    → length ctx < 2 ^ 16
    → decode_error_body (encode_error_body code ctx) ≡ ok (code, ctx)
unfolding decode_error_body
decode_error_body-encode_error_body code ctx p q =
    let hd = encode_head 0 code in
    let tail = encode_head 2 (length ctx) ++ ctx in
    let two : 2 + length hd ≡ suc (suc (length hd)) = omega arith in
    let three : 2 + length hd + 1 ≡ suc (suc (suc (length hd))) = omega arith in
    let number =
      HeadOf-read_uint (hd ++ (2 ∷ tail)) code (length hd)
        (encode_head-HeadOf 0 code (2 ∷ tail) (omega arith) (omega arith)) (omega arith) in
    let string = rw (append-nil) at (read_bstr-encode ctx [] q) in
    rw
      (
        encode_error_body_octets code ctx,
        number,
        three,
        two,
        get_or-length hd 2 tail,
        drop_past hd 2 tail,
        string,
      )
      (ground (arith, length-append hd (2 ∷ tail), length-append (encode_head 2 (length ctx)) ctx))

read_bstr-long :
    (ctx : List ℕ)
    → 2 ^ 16 ≤ length ctx
    → read_bstr (encode_head 2 (length ctx) ++ ctx) ≡ err malformed_error_body
unfolding read_bstr
read_bstr-long ctx q = elim (dec_lt (length ctx) (2 ^ 32)) [
  | yes r ↦ rw (head_4 2 (length ctx) q r) (ground arith)
  | no r ↦ rw (head_8 2 (length ctx) (omega arith)) (ground arith)
]

-- For a code of one octet, a context of 2 ^ 16 octets or more does not survive:
-- DecodeErrorBody rejects the body that EncodeErrorBody wrote.
pub decode_error_body-long :
    (code : ℕ) (ctx : List ℕ)
    → code < 256
    → 2 ^ 16 ≤ length ctx
    → decode_error_body (encode_error_body code ctx) ≡ err malformed_error_body
unfolding decode_error_body
decode_error_body-long code ctx p q =
    let hd = encode_head 0 code in
    let tail = encode_head 2 (length ctx) ++ ctx in
    let two : 2 + length hd ≡ suc (suc (length hd)) = omega arith in
    let three : 2 + length hd + 1 ≡ suc (suc (suc (length hd))) = omega arith in
    let number =
      HeadOf-read_uint (hd ++ (2 ∷ tail)) code (length hd)
        (encode_head-HeadOf 0 code (2 ∷ tail) (omega arith) (omega arith)) (omega arith) in
    rw
      (
        encode_error_body_octets code ctx,
        number,
        three,
        two,
        get_or-length hd 2 tail,
        drop_past hd 2 tail,
        read_bstr-long ctx q,
      )
      (ground (arith, length-append hd (2 ∷ tail)))

-- An octet string that DecodeErrorBody accepts has a code of one octet and is what
-- EncodeErrorBody writes for the result.
pub encode_error_body-decode_error_body :
    (b : List ℕ) (code : ℕ) (ctx : List ℕ)
    → All IsByte b
    → decode_error_body b ≡ ok (code, ctx)
    → (code < 256) × (encode_error_body code ctx ≡ b)
encode_error_body-decode_error_body [] code ctx octets h = unfold decode_error_body in cc
encode_error_body-decode_error_body (x ∷ []) code ctx octets h =
    unfold decode_error_body in ground arith
encode_error_body-decode_error_body (x ∷ y ∷ bs) code ctx octets h =
    let (p, q) = first_octets x y bs code ctx h in
    let r = decode_error_body-Parsed bs code ctx (rw (p, q) at h) in
    let hd = HeadOf-HeadBytes bs 0 code r.n octets.1.1 (read_uint-HeadOf bs code r.n r.number) in
    let s =
      read_bstr_strict (drop (suc r.n) bs) ctx r.m (All-drop IsByte (suc r.n) bs octets.1.1)
        r.string in
    let whole : r.m ≡ length (drop (suc r.n) bs) =
      omega (arith, length-drop (suc r.n) bs, r.whole, r.key_there) in
    let body : encode_head 2 (length ctx) ++ ctx ≡ drop (suc r.n) bs =
      s.0 ∙ rw whole (take_all (drop (suc r.n) bs)) in
    let middle : take r.n bs ++ (2 ∷ drop (suc r.n) bs) ≡ bs =
      rw r.key at (split_at r.n bs r.key_there) in
    (
      r.small,
      rw (encode_error_body_octets code ctx, hd.octets, body, p, q)
          (ap (λ t. 0xa2 ∷ 0x01 ∷ t) middle),
    )

-- ===== src/ErrorFrame/Body/Headers.antt =====
-- Headers and strings inside a body (cborReadUint and cborReadBstr in impl/go/errorframe.go).
use mathlib.Core.List.{append-nil}
use Prim.Native.Nat.{bit_and}
use npamp_protocol.Cbor.{encode, encode_head, byte_less}
use npamp_protocol.Cbor.Head.{HeadOf, encode_head-HeadOf}
use npamp_protocol.Cbor.Decoder.{decode_arg}
use npamp_protocol.ErrorFrame.{
  malformed_error_body, encode_error_body, read_uint, read_bstr, read_uint_arg,
}
use npamp_protocol.Prelude.{ℕ, suc, ◌+◌, ◌/◌, ◌^◌, ◌<◌, ◌≤◌, ◌≡◌, refl, ◌∙◌, arith, ltb}
use npamp_protocol.Prelude.{
  List, [], ◌∷◌, ◌++◌, length, ok, drop, get_or, length-append, not, ◌||◌, ◌==◌, ◌%◌, >>=-eq-ok,
  fail_if, fail_if-ok,
}
use npamp_protocol.Prelude.Bits.{and_0x1f}
use npamp_protocol.Prelude.Bytes.{slice, slice_middle}

pub masked_twice : (x : ℕ) → x < 256 → bit_and (bit_and x 0x1f) 0x1f ≡ bit_and x 0x1f
masked_twice x h = rw (and_0x1f x h) (and_0x1f (x % 32) (omega arith) ∙ omega arith)

-- The body in octets.
pub encode_error_body_octets :
    (code : ℕ) (ctx : List ℕ)
    → encode_error_body code ctx
      ≡ 0xa2 ∷ 0x01 ∷ (encode_head 0 code ++ (0x02 ∷ (encode_head 2 (length ctx) ++ ctx)))
unfolding encode_error_body encode byte_less
encode_error_body_octets code ctx = unfold encode_head in rw append-nil

module _ (b : List ℕ) (v n : ℕ) where
  pub read_uint_arg-decode_arg :
      (ai : ℕ) → read_uint_arg ai b ≡ ok (v, n) → decode_arg ai b ≡ ok (v, n)
  unfolding read_uint_arg decode_arg
  read_uint_arg-decode_arg ai h = ground arith

  pub decode_arg-read_uint_arg :
      (ai : ℕ) → v < 2 ^ 16 → decode_arg ai b ≡ ok (v, n) → read_uint_arg ai b ≡ ok (v, n)
  unfolding read_uint_arg decode_arg
  decode_arg-read_uint_arg ai p h = ground arith

  -- Where both read a header they read the same one.
  pub read_uint-HeadOf : read_uint b ≡ ok (v, n) → HeadOf b 0 v n
  unfolding read_uint
  read_uint-HeadOf h =
      let (u, first, arg) =
        >>=-eq-ok (fail_if (ltb (length b) 1 || not (get_or b 0 0 / 32 == 0)) malformed_error_body)
          _ h in
      let t =
        fail_if-ok (ltb (length b) 1 || not (get_or b 0 0 / 32 == 0)) malformed_error_body first in
      record {
        nonempty = ground arith;
        major_is = ground arith;
        argument = read_uint_arg-decode_arg (bit_and (get_or b 0 0) 0x1f) arg;
      }

  pub HeadOf-read_uint : HeadOf b 0 v n → v < 2 ^ 16 → read_uint b ≡ ok (v, n)
  unfolding read_uint
  HeadOf-read_uint h p = ground (
    arith,
    h.nonempty,
    h.major_is,
    decode_arg-read_uint_arg (bit_and (get_or b 0 0) 0x1f) p h.argument,
  )

-- The major type of a header does not matter to its argument.
pub HeadOf-masked :
    (x : ℕ) (xs : List ℕ) (m v n : ℕ)
    → x < 256
    → HeadOf (x ∷ xs) m v n
    → HeadOf (bit_and x 0x1f ∷ xs) 0 v n
unfolding decode_arg
HeadOf-masked x xs m v n byte h = record {
  nonempty = omega arith;
  major_is = rw (and_0x1f x byte) (omega arith);
  argument = rw (masked_twice x byte) h.argument;
}

pub HeadOf-unmasked :
    (x : ℕ) (xs : List ℕ) (v n : ℕ)
    → x < 256
    → HeadOf (bit_and x 0x1f ∷ xs) 0 v n
    → HeadOf (x ∷ xs) (x / 32) v n
unfolding decode_arg
HeadOf-unmasked x xs v n byte h = record {
  nonempty = omega arith;
  major_is = refl;
  argument = rw (masked_twice x byte) at h.argument;
}

pub read_bstr-HeadOf :
    (b : List ℕ) (ln n : ℕ)
    → HeadOf b 2 ln n
    → ln < 2 ^ 16
    → n + ln ≤ length b
    → read_bstr b ≡ ok (slice b n (n + ln), n + ln)
unfolding read_bstr
read_bstr-HeadOf [] ln n h p q = absurd (omega (arith, h.nonempty))
read_bstr-HeadOf (x ∷ xs) ln n h p q =
    let masked =
      HeadOf-read_uint _ ln n (HeadOf-masked x xs 2 ln n (omega (arith, h.major_is)) h) p in
    ground (arith, masked, h.major_is)

pub read_bstr-encode :
    (ctx rest : List ℕ)
    → length ctx < 2 ^ 16
    → read_bstr (encode_head 2 (length ctx) ++ (ctx ++ rest))
      ≡ ok (ctx, length (encode_head 2 (length ctx)) + length ctx)
read_bstr-encode ctx rest p =
    let hd = encode_head 2 (length ctx) in
    read_bstr-HeadOf _ (length ctx) (length hd)
      (encode_head-HeadOf 2 (length ctx) (ctx ++ rest) (omega arith) (omega arith)) p
      (omega (arith, length-append hd (ctx ++ rest), length-append ctx rest))
    ∙ rw (slice_middle hd ctx rest (length hd) (length hd + length ctx) refl refl)

pub get_or-length : (xs : List ℕ) (y : ℕ) (ys : List ℕ) → get_or (xs ++ (y ∷ ys)) (length xs) 0 ≡ y
get_or-length [] y ys = refl
get_or-length (x ∷ xs) y ys = get_or-length xs y ys

pub drop_past : (xs : List ℕ) (y : ℕ) (ys : List ℕ) → drop (suc (length xs)) (xs ++ (y ∷ ys)) ≡ ys
drop_past [] y ys = refl
drop_past (x ∷ xs) y ys = drop_past xs y ys

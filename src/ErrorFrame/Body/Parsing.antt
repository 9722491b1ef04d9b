-- ===== src/ErrorFrame/Body/Parsing.antt =====
-- What a successful DecodeErrorBody has found (impl/go/errorframe.go).
use npamp_protocol.ErrorFrame.Body.Headers.{read_uint-HeadOf, HeadOf-unmasked}
use Prim.Native.Nat.{bit_and}
use npamp_protocol.Cbor.{encode_head}
use npamp_protocol.Cbor.Head.{HeadBytes, HeadOf-HeadBytes}
use npamp_protocol.ErrorFrame.{
  malformed_error_body, decode_error_body, read_uint, read_bstr, expect_key,
}
use npamp_protocol.Prelude.{
  ℕ, zero, suc, ◌+◌, ◌-◌, ◌/◌, ◌<◌, ◌≤◌, ◌≡◌, refl, ◌∙◌, ap, arith, false, ltb,
}
use npamp_protocol.Prelude.{
  List, [], ◌∷◌, ◌++◌, length, ok, take, drop, All, get_or, not, ◌||◌, ◌==◌, >>=-eq-ok, fail_if,
  fail_if-ok, ok_pair, take-take-drop, leb,
}
use npamp_protocol.Prelude.Bytes.{slice, IsByte, length-slice}

pub string_parts :
    (b ctx : List ℕ) (n ln hn : ℕ)
    → HeadBytes b 2 ln hn
    → hn + ln ≤ length b
    → (ctx ≡ slice b hn (hn + ln)) × (n ≡ hn + ln)
    → (encode_head 2 (length ctx) ++ ctx ≡ take n b) × (n ≤ length b)
string_parts b ctx n ln hn h fits (p, q) =
    let len : length ctx ≡ ln =
      rw p (length-slice b hn (hn + ln) (omega arith) fits ∙ omega arith) in
    let size : hn + ln - hn ≡ ln = omega arith in
    (rw (len, h.octets, p, q, size) (take-take-drop hn ln b), omega arith)

pub read_bstr_strict :
    (b ctx : List ℕ) (n : ℕ)
    → All IsByte b
    → read_bstr b ≡ ok (ctx, n)
    → (encode_head 2 (length ctx) ++ ctx ≡ take n b) × (n ≤ length b)
unfolding read_bstr
read_bstr_strict [] ctx n octets h = cc
read_bstr_strict (x ∷ xs) ctx n octets h =
    let (u, first, h') =
      >>=-eq-ok (fail_if (ltb (length (x ∷ xs)) 1 || not (x / 32 == 2)) malformed_error_body) _ h in
    let two : x / 32 ≡ 2 = ground (
      arith,
      fail_if-ok (ltb (length (x ∷ xs)) 1 || not (x / 32 == 2)) malformed_error_body first,
    ) in
    let ((ln, hn), number, h'') = >>=-eq-ok (read_uint (bit_and x 0x1f ∷ xs)) _ h' in
    let (v, fits, done) =
      >>=-eq-ok (fail_if (ltb (hn + ln) hn || ltb (length (x ∷ xs)) (hn + ln)) malformed_error_body)
        _ h'' in
    let long =
      fail_if-ok (ltb (hn + ln) hn || ltb (length (x ∷ xs)) (hn + ln)) malformed_error_body fits in
    let hd =
      HeadOf-unmasked x xs ln hn octets.0 (read_uint-HeadOf (bit_and x 0x1f ∷ xs) ln hn number) in
    string_parts (x ∷ xs) ctx n ln hn (HeadOf-HeadBytes (x ∷ xs) 2 ln hn octets (rw two at hd))
      (ground (arith, long)) (ok_pair done)

pub split_at :
    (n : ℕ) (bs : List ℕ) → n < length bs → take n bs ++ (get_or bs n 0 ∷ drop (suc n) bs) ≡ bs
split_at n [] h = absurd (omega arith)
split_at zero (b ∷ bs) h = refl
split_at (suc n) (b ∷ bs) h = ap (λ t. b ∷ t) (split_at n bs (omega arith))

-- What a successful run over `0xa2 ∷ 0x01 ∷ bs` has found.
pub record Parsed (bs : List ℕ) (code : ℕ) (ctx : List ℕ) : Type 0 where
  pub n : ℕ
  pub m : ℕ
  pub number : read_uint bs ≡ ok (code, n)
  pub small : code < 256
  pub key : get_or bs n 0 ≡ 2
  pub key_there : n < length bs
  pub string : read_bstr (drop (suc n) bs) ≡ ok (ctx, m)
  pub whole : 3 + n + m ≡ 2 + length bs

pub Parsed-cast :
    {bs : List ℕ} {c d : ℕ} {x y : List ℕ} → d ≡ c → y ≡ x → Parsed bs c x → Parsed bs d y
Parsed-cast p q r = rw (p, q) r

pub second_key :
    (b : List ℕ) (p : ℕ) → (leb (length b) p || not (get_or b p 0 == 2)) ≡ false → get_or b p 0 ≡ 2
second_key b p h = ground arith

pub first_octets :
    (x y : ℕ) (bs : List ℕ) (code : ℕ) (ctx : List ℕ)
    → decode_error_body (x ∷ y ∷ bs) ≡ ok (code, ctx)
    → (x ≡ 0xa2) × (y ≡ 0x01)
unfolding decode_error_body
first_octets x y bs code ctx h =
    let b = x ∷ y ∷ bs in
    let (_, first, h₀) =
      >>=-eq-ok (fail_if (ltb (length b) 1 || not (get_or b 0 0 == 0xa2)) malformed_error_body) _
        h in
    let (_, one, h₁) = >>=-eq-ok (expect_key 0x01 1 b) _ h₀ in
    (
      ground (
        arith,
        fail_if-ok (ltb (length b) 1 || not (get_or b 0 0 == 0xa2)) malformed_error_body first,
      ),
      ground (
        arith,
        fail_if-ok (leb (length b) 1 || not (get_or b 1 0 == 0x01)) malformed_error_body one,
      ),
    )

pub decode_error_body-Parsed :
    (bs : List ℕ) (code : ℕ) (ctx : List ℕ)
    → decode_error_body (0xa2 ∷ 0x01 ∷ bs) ≡ ok (code, ctx)
    → Parsed bs code ctx
unfolding decode_error_body
decode_error_body-Parsed bs code ctx h =
    let b = 0xa2 ∷ 0x01 ∷ bs in
    let (_, _first, h₀) =
      >>=-eq-ok (fail_if (ltb (length b) 1 || not (get_or b 0 0 == 0xa2)) malformed_error_body) _
        h in
    let (_, _one, h₁) = >>=-eq-ok (expect_key 0x01 1 b) _ h₀ in
    let ((c, n), number, h₂) = >>=-eq-ok (read_uint bs) _ h₁ in
    let two : 2 + n ≡ suc (suc n) = omega arith in
    let three : 2 + n + 1 ≡ suc (suc (suc n)) = omega arith in
    let (_, small, h₃) = >>=-eq-ok (fail_if (ltb 255 c) malformed_error_body) _ h₂ in
    let (_, key, h₄) = >>=-eq-ok (expect_key 0x02 (2 + n) b) _ h₃ in
    let ((x, m), string, h₅) = >>=-eq-ok (read_bstr (drop (2 + n + 1) b)) _ h₄ in
    let (_, whole, done) =
      >>=-eq-ok (fail_if (not ((2 + n + 1) + m == length b)) malformed_error_body) _ h₅ in
    let (p, q) = ok_pair done in
    let at_key =
      fail_if-ok (leb (length b) (2 + n) || not (get_or b (2 + n) 0 == 2)) malformed_error_body
        key in
    Parsed-cast p q (record {
      n = n;
      m = m;
      number = number;
      small = ground (arith, fail_if-ok (ltb 255 c) malformed_error_body small);
      key = rw two at (second_key b (2 + n) at_key);
      key_there = ground (arith, at_key);
      string = rw three at string;
      whole =
          ground (arith, fail_if-ok (not ((2 + n + 1) + m == length b)) malformed_error_body whole);
    })

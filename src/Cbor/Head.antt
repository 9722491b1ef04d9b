-- ===== src/Cbor/Head.antt =====
-- The type header: encodeHead and decodeArg undo each other, and only the shortest form is read.
use Prim.Native.Nat.{bit_and, bit_or}
use native.Mathlib.Decide.{dec_lt}
use npamp_protocol.Cbor.{encode_head}
use npamp_protocol.Cbor.Decoder.{decode_arg, wide_arg}
use npamp_protocol.Prelude.{
  ℕ, suc, ◌+◌, ◌-◌, ◌*◌, ◌/◌, ◌%◌, ◌^◌, ◌≤◌, ◌<◌, ◌≡◌, refl, sym, ◌∙◌, arith, ap,
}
use npamp_protocol.Prelude.{List, [], ◌∷◌, ◌++◌, length, ok, get_or, take, All}
use npamp_protocol.Prelude.{length-append, ltb, ◌==◌, Bool-cases, inl, inr}
use npamp_protocol.Prelude.Bytes.{
  get_be, slice, put_be, get_be-put_be, slice_middle, length-put_be, IsByte,
}
use npamp_protocol.Prelude.Bytes.{
  get_be-lt, slice-IsByte, length-slice, put_be-get_be, get_or-IsByte,
}
use npamp_protocol.Prelude.Bits.{or_major, and_0x1f}

-- The header at the front of a buffer: major type, argument, and length.
pub record HeadOf (b : List ℕ) (major arg n : ℕ) : Type 0 where
  pub nonempty : 0 < length b
  pub major_is : get_or b 0 0 / 32 ≡ major
  pub argument : decode_arg (bit_and (get_or b 0 0) 0x1f) b ≡ ok (arg, n)

abbrev pub octet : ℕ → ℕ → ℕ
octet major a = bit_or (major * 32 % 256) a

octet_lem : (m a : ℕ) → m < 8 → a < 32 → octet m a ≡ m * 32 + a
octet_lem m a p q = let e : m * 32 % 256 ≡ m * 32 = omega arith in rw e (or_major m a p q)

octet-low : (m a : ℕ) → m < 8 → a < 32 → bit_and (octet m a) 0x1f ≡ a
octet-low m a p q = rw (octet_lem m a p q, and_0x1f (m * 32 + a) (omega arith)) (omega arith)

octet-high : (m a : ℕ) → m < 8 → a < 32 → octet m a / 32 ≡ m
octet-high m a p q = rw (octet_lem m a p q) (omega arith)

module _ (m arg : ℕ) where
  head_0 : arg < 24 → encode_head m arg ≡ octet m arg ∷ []
  unfolding encode_head
  head_0 h = ground arith

  head_1 : 24 ≤ arg → arg < 2 ^ 8 → encode_head m arg ≡ octet m 24 ∷ put_be 1 arg
  unfolding encode_head
  head_1 p h = ground arith

  head_2 : 2 ^ 8 ≤ arg → arg < 2 ^ 16 → encode_head m arg ≡ octet m 25 ∷ put_be 2 arg
  unfolding encode_head
  head_2 p h = ground arith

  pub head_4 : 2 ^ 16 ≤ arg → arg < 2 ^ 32 → encode_head m arg ≡ octet m 26 ∷ put_be 4 arg
  unfolding encode_head
  head_4 p h = ground arith

  pub head_8 : 2 ^ 32 ≤ arg → encode_head m arg ≡ octet m 27 ∷ put_be 8 arg
  unfolding encode_head
  head_8 p = ground arith

wide_arg-put_be :
    (x k least arg : ℕ) (rest : List ℕ)
    → arg < 256 ^ k
    → least ≤ arg
    → wide_arg k least (x ∷ (put_be k arg ++ rest)) ≡ ok (arg, suc k)
wide_arg-put_be x k least arg rest p q =
    let read : get_be (slice (x ∷ (put_be k arg ++ rest)) 1 (suc k)) ≡ arg =
      ap get_be (
        slice_middle (x ∷ []) (put_be k arg) rest 1 (suc k) refl
          (omega (arith, length-put_be k arg)))
      ∙ get_be-put_be k arg p in
    rw read (ground (arith, length-append (put_be k arg) rest, length-put_be k arg))

wide-HeadOf :
    (m a k least arg : ℕ) (rest : List ℕ)
    → m < 8
    → a < 32
    → ((b : List ℕ) → decode_arg a b ≡ wide_arg k least b)
    → arg < 256 ^ k
    → least ≤ arg
    → HeadOf (octet m a ∷ (put_be k arg ++ rest)) m arg (suc k)
wide-HeadOf m a k least arg rest p q is_wide fits enough = record {
  nonempty = omega arith;
  major_is = octet-high m a p q;
  argument =
      rw (octet-low m a p q, is_wide) (wide_arg-put_be (octet m a) k least arg rest fits enough);
}

-- The five forms of a header.
data Width (arg : ℕ) : Type 0 where
  in_header : arg < 24 → Width arg
  one_octet : 24 ≤ arg → arg < 2 ^ 8 → Width arg
  two_octets : 2 ^ 8 ≤ arg → arg < 2 ^ 16 → Width arg
  four_octets : 2 ^ 16 ≤ arg → arg < 2 ^ 32 → Width arg
  eight_octets : 2 ^ 32 ≤ arg → Width arg

width : (arg : ℕ) → Width arg
width arg = elim (dec_lt arg 24) [
  | yes h ↦ in_header h
  | no h ↦ elim (dec_lt arg (2 ^ 8)) [
    | yes i ↦ one_octet (omega arith) i
    | no i ↦ elim (dec_lt arg (2 ^ 16)) [
      | yes j ↦ two_octets (omega arith) j
      | no j ↦ elim (dec_lt arg (2 ^ 32)) [
        | yes k ↦ four_octets (omega arith) k
        | no k ↦ eight_octets (omega arith)
      ]
    ]
  ]
]

module _ (m arg : ℕ) (rest : List ℕ) (p : m < 8) (q : arg < 2 ^ 64) where
  encode_head-HeadOf-Width :
      Width arg → HeadOf (encode_head m arg ++ rest) m arg (length (encode_head m arg))
  unfolding decode_arg
  encode_head-HeadOf-Width (in_header h) = rw (head_0 m arg h) (record {
    nonempty = omega arith;
    major_is = octet-high m arg p (omega arith);
    argument = rw (octet-low m arg p (omega arith)) (ground arith);
  })
  encode_head-HeadOf-Width (one_octet h k) =
      rw (head_1 m arg h k, length-put_be)
        (wide-HeadOf m 24 1 24 arg rest p (omega arith) (λ b. refl) k h)
  encode_head-HeadOf-Width (two_octets h k) =
      rw (head_2 m arg h k, length-put_be)
        (wide-HeadOf m 25 2 (2 ^ 8) arg rest p (omega arith) (λ b. refl) k h)
  encode_head-HeadOf-Width (four_octets h k) =
      rw (head_4 m arg h k, length-put_be)
        (wide-HeadOf m 26 4 (2 ^ 16) arg rest p (omega arith) (λ b. refl) k h)
  encode_head-HeadOf-Width (eight_octets h) =
      rw (head_8 m arg h, length-put_be)
        (wide-HeadOf m 27 8 (2 ^ 32) arg rest p (omega arith) (λ b. refl) q h)

  -- The header that encodeHead writes is read back, whatever follows.
  pub encode_head-HeadOf : HeadOf (encode_head m arg ++ rest) m arg (length (encode_head m arg))
  encode_head-HeadOf = encode_head-HeadOf-Width (width arg)

-- What a header that was read tells of the buffer.
pub record HeadBytes (b : List ℕ) (major arg n : ℕ) : Type 0 where
  pub arg_fits : arg < 2 ^ 64
  pub some_octets : 1 ≤ n
  pub there : n ≤ length b
  pub octets : encode_head major arg ≡ take n b

take_wide : (b : List ℕ) (k : ℕ) → 0 < length b → take (suc k) b ≡ get_or b 0 0 ∷ slice b 1 (suc k)
take_wide [] k h = absurd (omega arith)
take_wide (x ∷ xs) k h = let e : suc k - 1 ≡ k = omega arith in rw e

module _ (b : List ℕ) (m arg n : ℕ) (bytes : All IsByte b) where
  wide-HeadBytes :
      (t k least : ℕ)
      → get_or b 0 0 ≡ octet m t
      → 256 ^ k ≤ 2 ^ 64
      → (least ≤ arg → arg < 256 ^ k → encode_head m arg ≡ octet m t ∷ put_be k arg)
      → wide_arg k least b ≡ ok (arg, n)
      → HeadBytes b m arg n
  wide-HeadBytes t k least first small head h =
      let there : suc k ≤ length b = ground arith in
      let n_is : n ≡ suc k = ground arith in
      let arg_is : arg ≡ get_be (slice b 1 (suc k)) = ground arith in
      let enough : least ≤ arg = ground arith in
      let len : length (slice b 1 (suc k)) ≡ k =
        length-slice b 1 (suc k) (omega arith) there ∙ omega arith in
      let fits : arg < 256 ^ k =
        rw arg_is (rw len at (get_be-lt (slice b 1 (suc k)) (slice-IsByte b 1 (suc k) bytes))) in
      let number : put_be k arg ≡ slice b 1 (suc k) =
        rw arg_is
          (rw len at (put_be-get_be (slice b 1 (suc k)) (slice-IsByte b 1 (suc k) bytes))) in
      record {
        arg_fits = omega arith;
        some_octets = omega arith;
        there = omega arith;
        octets = head enough fits ∙ rw (n_is, take_wide b k (omega arith), number, first) refl;
      }

  octet_of : HeadOf b m arg n → (t : ℕ) → bit_and (get_or b 0 0) 0x1f ≡ t → get_or b 0 0 ≡ octet m t
  octet_of h t e =
      let byte = get_or-IsByte b 0 bytes in
      let low : get_or b 0 0 % 32 ≡ t = sym (and_0x1f (get_or b 0 0) byte) ∙ e in
      omega (arith, octet_lem m t, h.major_is)

  tiny-HeadBytes :
      HeadOf b m arg n → bit_and (get_or b 0 0) 0x1f ≡ arg → arg < 24 → n ≡ 1 → HeadBytes b m arg n
  tiny-HeadBytes h low small one = record {
    arg_fits = omega arith;
    some_octets = omega arith;
    there = omega (arith, h.nonempty);
    octets = head_0 m arg small ∙ rw (one, take_wide b 0 h.nonempty, octet_of h arg low) refl;
  }

  -- A header that decodeArg reads is the one that encodeHead writes.
  pub HeadOf-HeadBytes : HeadOf b m arg n → HeadBytes b m arg n
  unfolding decode_arg
  HeadOf-HeadBytes h =
      let ai = bit_and (get_or b 0 0) 0x1f in
      let e = h.argument in
      elim (Bool-cases (ltb ai 24)) [
        | inl c ↦ tiny-HeadBytes h (ground arith) (ground arith) (ground arith)
        | inr c₀ ↦ elim (Bool-cases (ai == 24)) [
          | inl c ↦
              wide-HeadBytes 24 1 24 (octet_of h 24 (ground arith)) (omega arith) (head_1 m arg)
                (rw (c₀, c) at e)
          | inr c₁ ↦ elim (Bool-cases (ai == 25)) [
            | inl c ↦
                wide-HeadBytes 25 2 (2 ^ 8) (octet_of h 25 (ground arith)) (omega arith)
                  (head_2 m arg) (rw (c₀, c₁, c) at e)
            | inr c₂ ↦ elim (Bool-cases (ai == 26)) [
              | inl c ↦
                  wide-HeadBytes 26 4 (2 ^ 16) (octet_of h 26 (ground arith)) (omega arith)
                    (head_4 m arg) (rw (c₀, c₁, c₂, c) at e)
              | inr c₃ ↦ elim (Bool-cases (ai == 27)) [
                | inl c ↦
                    wide-HeadBytes 27 8 (2 ^ 32) (octet_of h 27 (ground arith)) (omega arith)
                      (λ p q. head_8 m arg p) (rw (c₀, c₁, c₂, c₃, c) at e)
                | inr c₄ ↦ elim (Bool-cases (ai == 31)) [
                  | inl c ↦ absurd (cc (rw (c₀, c₁, c₂, c₃, c₄, c) at e))
                  | inr c₅ ↦ absurd (cc (rw (c₀, c₁, c₂, c₃, c₄, c₅) at e))
                ]
              ]
            ]
          ]
        ]
      ]

-- ===== src/Cbor/Strict.antt =====
-- What the decoder accepts: exactly the encodings of canonical values.
pub mod Parts
use npamp_protocol.Cbor.Strict.Parts.{
  Reads, IsStrict, Reads-cast, decode_items-ReadsItems, decode_entries-ReadsEntries,
}
use Prim.Native.Nat.{bit_and}
use npamp_protocol.Cbor.{Value, int64, bytes, text, array, cbor_map, encode_head}
use npamp_protocol.Cbor.{
  Items, Entries, entry, encode, encode_items, encode_entries, length_items, length_entries,
}
use npamp_protocol.Cbor.Canonical.{IsCanonical, IsCanonicalItems, IsCanonicalEntries}
use npamp_protocol.Cbor.Decoder.{
  CborError, decode, decode_items, decode_entries, decode_major, decode_string, decode_simple,
  decode_arg, decode_top, out_of_order, map_order, truncated, trailing, cbor_max_nesting_depth,
}
use npamp_protocol.Cbor.Head.{HeadBytes, HeadOf-HeadBytes}
use npamp_protocol.Cbor.RoundTrip.{decode_top-encode}
use npamp_protocol.Prelude.{
  ℕ, zero, suc, ◌+◌, ◌-◌, ◌/◌, ◌^◌, ◌<◌, ◌≤◌, ◌≡◌, refl, sym, ◌∙◌, ap, arith, false, ◌==◌, ◌↔◌,
}
use npamp_protocol.Prelude.{
  List, [], ◌∷◌, ◌++◌, length, Option, some, none, Result, ok, take, drop, All, get_or,
}
use npamp_protocol.Prelude.{
  length-drop, take-take-drop, All-drop, take_all, Bool-cases, inl, inr, >>=-eq-ok, fail_if,
  fail_if-ok, ok_pair, ok-injective, ltb, not,
}
use npamp_protocol.Prelude.Int.{negsuc}
use npamp_protocol.Prelude.Bytes.{slice, IsByte, length-slice}
use npamp_protocol.Prelude.Bits.{and_0x1f}

decode_string-Reads :
    (l : ℕ) (make : List ℕ → Value) (m : ℕ)
    → ((bs : List ℕ) → encode (make bs) ≡ encode_head m (length bs) ++ bs)
    → ((bs : List ℕ) → length bs < 2 ^ 64 → IsCanonical (suc l) (make bs))
    → (arg n : ℕ) (b : List ℕ) (v : Value) (end : ℕ) → HeadBytes b m arg n
    → decode_string make arg n b ≡ ok (v, end)
    → Reads (suc l) b v end
unfolding decode_string
decode_string-Reads l make m enc can arg n b v end h e =
    let fits : n + arg ≤ length b = ground arith in
    let p : v ≡ make (slice b n (n + arg)) = ground arith in
    let q : end ≡ n + arg = ground arith in
    let len : length (slice b n (n + arg)) ≡ arg =
      length-slice b n (n + arg) (omega arith) fits ∙ omega arith in
    let size : n + arg - n ≡ arg = omega arith in
    Reads-cast p q (record {
      canonical = can _ (rw len h.arg_fits);
      there = fits;
      octets = enc _ ∙ rw (len, h.octets, size) (take-take-drop n arg b);
    })

module _ (l : ℕ) (strict : IsStrict l (decode l)) (arg n : ℕ) (b : List ℕ)
    (octets : All IsByte b) where
  array-Reads :
      (vs : Items) (end : ℕ)
      → HeadBytes b 4 arg n
      → decode_items (decode l) arg (drop n b) n ≡ ok (vs, end)
      → Reads (suc l) b (array vs) end
  unfolding IsCanonical encode
  array-Reads vs end h e =
      let r =
        decode_items-ReadsItems l (decode l) strict arg (drop n b) n vs end
          (All-drop IsByte n b octets) e in
      record {
        canonical = (omega (arith, r.count_is, h.arg_fits), r.canonical);
        there = omega (arith, r.end_is, r.there, length-drop n b, h.there);
        octets = rw (r.count_is, h.octets, r.octets, r.end_is) (take-take-drop n r.k b);
      }

  map-Reads :
      (es : Entries) (end : ℕ)
      → HeadBytes b 5 arg n
      → decode_entries (decode l) none arg (drop n b) n ≡ ok (es, end)
      → Reads (suc l) b (cbor_map es) end
  unfolding IsCanonical encode
  map-Reads es end h e =
      let r =
        decode_entries-ReadsEntries l (decode l) strict none arg (drop n b) n es end
          (All-drop IsByte n b octets) e in
      record {
        canonical = (omega (arith, r.count_is, h.arg_fits), r.canonical);
        there = omega (arith, r.end_is, r.there, length-drop n b, h.there);
        octets = rw (r.count_is, h.octets, r.octets, r.end_is) (take-take-drop n r.k b);
      }

  decode_major-Reads :
      (m : ℕ) (v : Value) (end : ℕ)
      → HeadBytes b m arg n
      → decode_major (decode l) m arg n b ≡ ok (v, end)
      → Reads (suc l) b v end
  unfolding decode_major IsCanonical encode
  decode_major-Reads zero v end h e =
      let (p, q) = ok_pair e in
      Reads-cast p q (record { canonical = h.arg_fits; there = h.there; octets = h.octets })
  decode_major-Reads (suc zero) v end h e =
      let small : arg < 2 ^ 63 = ground arith in
      let p : v ≡ int64 (negsuc arg) = ground arith in
      let q : end ≡ n = ground arith in
      Reads-cast p q (record { canonical = small; there = h.there; octets = h.octets })
  decode_major-Reads (suc (suc zero)) v end h e =
      decode_string-Reads l bytes 2 (λ bs. refl) (λ bs p. p) arg n b v end h e
  decode_major-Reads (suc (suc (suc zero))) v end h e =
      decode_string-Reads l text 3 (λ bs. refl) (λ bs p. p) arg n b v end h e
  decode_major-Reads (suc (suc (suc (suc zero)))) v end h e =
      let (u, _few, next) = >>=-eq-ok (fail_if (ltb (length b - n) arg) truncated) _ e in
      let ((vs, end'), more, done) = >>=-eq-ok (decode_items (decode l) arg (drop n b) n) _ next in
      let (p, q) = ok_pair done in Reads-cast p q (array-Reads vs end' h more)
  decode_major-Reads (suc (suc (suc (suc (suc zero))))) v end h e =
      let (u, _few, next) = >>=-eq-ok (fail_if (ltb (length b - n) arg) truncated) _ e in
      let ((es, end'), more, done) =
        >>=-eq-ok (decode_entries (decode l) none arg (drop n b) n) _ next in
      let (p, q) = ok_pair done in Reads-cast p q (map-Reads es end' h more)
  decode_major-Reads (suc (suc (suc (suc (suc (suc m)))))) v end h e = ground arith

one_octet :
    (b : List ℕ) (ai : ℕ)
    → 0 < length b
    → All IsByte b
    → get_or b 0 0 / 32 ≡ 7
    → bit_and (get_or b 0 0) 0x1f ≡ ai
    → take 1 b ≡ (224 + ai) ∷ []
one_octet [] ai p h q e = absurd (omega arith)
one_octet (x ∷ xs) ai p h q e = ap (λ (y : ℕ). y ∷ []) (omega (arith, and_0x1f x h.0))

simple-Reads :
    (l : ℕ) (b : List ℕ) (v : Value) (n : ℕ)
    → 0 < length b
    → All IsByte b
    → get_or b 0 0 / 32 ≡ 7
    → decode_simple (bit_and (get_or b 0 0) 0x1f) ≡ ok (v, n)
    → Reads (suc l) b v n
unfolding decode_simple IsCanonical encode
simple-Reads l b v n p h m e =
    let ai = bit_and (get_or b 0 0) 0x1f in
    let octet = λ (t : ℕ) (e : ai ≡ t). sym (one_octet b t p h m e) in
    elim (Bool-cases (ai == 20)) [
      | inl c ↦
          let (vp, np) = ok_pair (rw c at e) in
          Reads-cast vp np (record { canonical = tt; there = p; octets = octet 20 (ground arith) })
      | inr c ↦ elim (Bool-cases (ai == 21)) [
        | inl c' ↦
            let (vp, np) = ok_pair (rw (c, c') at e) in
            Reads-cast vp np
              (record { canonical = tt; there = p; octets = octet 21 (ground arith) })
        | inr c' ↦ elim (Bool-cases (ai == 22)) [
          | inl c'' ↦
              let (vp, np) = ok_pair (rw (c, c', c'') at e) in
              Reads-cast vp np
                (record { canonical = tt; there = p; octets = octet 22 (ground arith) })
          | inr c'' ↦ cc (rw (c, c', c'') at e)
        ]
      ]
    ]

decode-IsStrict : (l : ℕ) → IsStrict l (decode l)
unfolding decode
decode-IsStrict zero b v n h e = cc
decode-IsStrict (suc l) b v n h e = elim (Bool-cases (length b == 0)) [
  | inl c ↦ cc (rw c at e)
  | inr c ↦ elim (Bool-cases (get_or b 0 0 / 32 == 7)) [
    | inl c' ↦ simple-Reads l b v n (ground arith) h (ground arith) (rw (c, c') at e)
    | inr c' ↦
        let ((arg, hn), hd, next) =
          >>=-eq-ok (decode_arg (bit_and (get_or b 0 0) 0x1f) b) _ (rw (c, c') at e) in
        decode_major-Reads l (decode-IsStrict l) arg hn b h (get_or b 0 0 / 32) v n
          (HeadOf-HeadBytes b (get_or b 0 0 / 32) arg hn h
            (record { nonempty = ground arith; major_is = refl; argument = hd }))
          next
  ]
]

top_parts :
    (b : List ℕ) (v w : Value) (n : ℕ)
    → w ≡ v
    → n ≡ length b
    → Reads cbor_max_nesting_depth b w n
    → IsCanonical cbor_max_nesting_depth v × (encode v ≡ b)
top_parts b v w n p q r = rw (← p) (r.canonical, r.octets ∙ rw q (take_all b))

decode_top-IsCanonical :
    (b : List ℕ) (v : Value)
    → All IsByte b
    → decode_top b ≡ ok v
    → IsCanonical cbor_max_nesting_depth v × (encode v ≡ b)
unfolding decode_top
decode_top-IsCanonical b v h e =
    let ((w, n), read, next) = >>=-eq-ok (decode cbor_max_nesting_depth b) _ e in
    let (u, whole, done) = >>=-eq-ok (fail_if (not (n == length b)) trailing) _ next in
    let r = decode-IsStrict cbor_max_nesting_depth b w n h read in
    let p : n ≡ length b = ground (arith, fail_if-ok (not (n == length b)) trailing whole) in
    top_parts b v w n (ok-injective done) p r

-- On octet strings, the decoder returns a value exactly if the value is canonical and the
-- string is its encoding: a payload has one meaning, and a value one payload.
pub decode_top-encode_iff :
    (b : List ℕ) (v : Value)
    → All IsByte b
    → (decode_top b ≡ ok v) ↔ (IsCanonical cbor_max_nesting_depth v × (encode v ≡ b))
decode_top-encode_iff b v h =
    (decode_top-IsCanonical b v h, λ c. rw (← c.1) (decode_top-encode v c.0))

-- ===== src/Cbor/RoundTrip/Majors.antt =====
-- Decoding one item of each major type (impl/go/memory_cbor.go).
use mathlib.Core.List.{append_assoc}
use native.Mathlib.Nat.{add_assoc}
use npamp_protocol.Cbor.{
  Value, uint64, int, int64, bytes, text, array, cbor_map, umap, bool, nil, encode_head,
}
use npamp_protocol.Cbor.{
  Items, no_item, item, Entries, no_entry, entry, encode, encode_items, encode_entries,
  length_items, length_entries, encode_pairs, concat_encoded, sort_encoded,
}
use Prim.Native.Nat.{bit_and}
use npamp_protocol.Cbor.Decoder.{
  CborError, decode, decode_items, decode_entries, decode_major, decode_string, decode_simple,
  out_of_order,
}
use npamp_protocol.Cbor.Head.{HeadOf, encode_head-HeadOf}
use npamp_protocol.Prelude.{ℕ, suc, ◌+◌, ◌/◌, ◌^◌, ◌<◌, ◌≤◌, ◌≡◌, refl, ap, arith, true, false}
use npamp_protocol.Prelude.{List, ◌∷◌, ◌++◌, length, Option, some, none, Result, ok}
use npamp_protocol.Prelude.{length-append, drop-append, take-append}
use npamp_protocol.Prelude.Int.{pos, negsuc}
use npamp_protocol.Prelude.Bytes.{slice_middle}

-- After its header an item is decoded by its major type.
pub decode-HeadOf :
    (l : ℕ) (b : List ℕ) (m arg n : ℕ)
    → HeadOf b m arg n
    → m < 7
    → decode (suc l) b ≡ decode_major (decode l) m arg n b
unfolding decode
decode-HeadOf l b m arg n h p = rw (h.major_is, h.argument) (ground (arith, h.nonempty))

pub decode_string-append :
    (make : List ℕ → Value) (hd bs rest : List ℕ)
    → decode_string make (length bs) (length hd) (hd ++ (bs ++ rest))
      ≡ ok (make bs, length hd + length bs)
unfolding decode_string
decode_string-append make hd bs rest =
    rw (slice_middle hd bs rest (length hd) (length hd + length bs) refl refl)
      (ground (arith, length-append hd (bs ++ rest), length-append bs rest))

module _ (l m arg : ℕ) (p : m < 7) (q : arg < 2 ^ 64) (body rest : List ℕ) where
  pub decode-encode_head :
      decode (suc l) ((encode_head m arg ++ body) ++ rest)
      ≡ decode_major
          (decode l)
          m
          arg
          (length (encode_head m arg))
          (encode_head m arg ++ (body ++ rest))
  decode-encode_head =
      rw (append_assoc)
        (decode-HeadOf l _ m arg _ (encode_head-HeadOf m arg (body ++ rest) (omega arith) q) p)

pub encode_head-pos : (m arg : ℕ) → 1 ≤ length (encode_head m arg)
unfolding encode_head
encode_head-pos m arg = ground arith

-- No item is encoded as nothing, so a count never exceeds what is left.
pub encode-pos : (v : Value) → 1 ≤ length (encode v)
unfolding encode
encode-pos (uint64 n) = encode_head-pos 0 n
encode-pos (int (pos n)) = encode_head-pos 0 n
encode-pos (int (negsuc n)) = encode_head-pos 1 n
encode-pos (int64 (pos n)) = encode_head-pos 0 n
encode-pos (int64 (negsuc n)) = encode_head-pos 1 n
encode-pos (bytes bs) =
    omega (arith, length-append (encode_head 2 (length bs)) bs, encode_head-pos 2 (length bs))
encode-pos (text bs) =
    omega (arith, length-append (encode_head 3 (length bs)) bs, encode_head-pos 3 (length bs))
encode-pos (array vs) = omega (
  arith,
  length-append (encode_head 4 (length_items vs)) (encode_items vs),
  encode_head-pos 4 (length_items vs),
)
encode-pos (cbor_map es) = omega (
  arith,
  length-append (encode_head 5 (length_entries es)) (encode_entries es),
  encode_head-pos 5 (length_entries es),
)
encode-pos (umap ps) = omega (
  arith,
  length-append (encode_head 5 (length (encode_pairs ps)))
      (concat_encoded (sort_encoded (encode_pairs ps))),
  encode_head-pos 5 (length (encode_pairs ps)),
)
encode-pos (bool true) = omega arith
encode-pos (bool false) = omega arith
encode-pos nil = omega arith

pub length_items-le : (vs : Items) → length_items vs ≤ length (encode_items vs)
unfolding encode
length_items-le no_item = omega arith
length_items-le (item v vs) =
    omega (arith, length-append (encode v) (encode_items vs), encode-pos v, length_items-le vs)

pub length_entries-le : (es : Entries) → length_entries es ≤ length (encode_entries es)
unfolding encode
length_entries-le no_entry = omega arith
length_entries-le (entry k key val es) = omega (
  arith,
  length-append k (encode val ++ encode_entries es),
  length-append (encode val) (encode_entries es),
  encode-pos val,
  length_entries-le es,
)

module _ (decode_one : List ℕ → Result CborError (Value × ℕ)) (c off : ℕ) (a b rest : List ℕ) where
  pub decode_items_step :
      (v : Value) (vs : Items)
      → decode_one (a ++ (b ++ rest)) ≡ ok (v, length a)
      → decode_items decode_one c (b ++ rest) (off + length a)
        ≡ ok (vs, (off + length a) + length b)
      → decode_items decode_one (suc c) ((a ++ b) ++ rest) off
        ≡ ok (item v vs, off + length (a ++ b))
  unfolding decode_items
  decode_items_step v vs h hs =
      rw (append_assoc, h, drop-append a (b ++ rest), hs, length-append, add_assoc)

  pub decode_entries_step :
      (prev : Option (List ℕ)) (k : List ℕ) (key val : Value) (es : Entries)
      → decode_one (k ++ (a ++ (b ++ rest))) ≡ ok (key, length k)
      → out_of_order prev k ≡ false
      → decode_one (a ++ (b ++ rest)) ≡ ok (val, length a)
      → decode_entries decode_one (some k) c (b ++ rest) ((off + length k) + length a)
        ≡ ok (es, ((off + length k) + length a) + length b)
      → decode_entries decode_one prev (suc c) ((k ++ (a ++ b)) ++ rest) off
        ≡ ok (entry k key val es, off + length (k ++ (a ++ b)))
  unfolding decode_entries
  decode_entries_step prev k key val es hk ho hv hs =
      rw
        (
          append_assoc k (a ++ b) rest,
          append_assoc a b rest,
          hk,
          take-append k (a ++ (b ++ rest)),
          drop-append k (a ++ (b ++ rest)),
          ho,
          hv,
          drop-append a (b ++ rest),
          hs,
          length-append k (a ++ b),
          length-append a b,
        )
        (ap (λ (n : ℕ). ok (entry k key val es, n)) (omega arith))

pub decode_major-array :
    (l : ℕ) (hd : List ℕ) (vs : Items) (rest : List ℕ)
    → decode_items (decode l) (length_items vs) (encode_items vs ++ rest) (length hd)
      ≡ ok (vs, length hd + length (encode_items vs))
    → decode_major (decode l) 4 (length_items vs) (length hd) (hd ++ (encode_items vs ++ rest))
      ≡ ok (array vs, length (hd ++ encode_items vs))
unfolding decode_major
decode_major-array l hd vs rest h =
    rw (drop-append hd (encode_items vs ++ rest), h, length-append hd (encode_items vs))
      (ground (
        arith,
        length_items-le vs,
        length-append hd (encode_items vs ++ rest),
        length-append (encode_items vs) rest,
      ))

pub decode_major-map :
    (l : ℕ) (hd : List ℕ) (es : Entries) (rest : List ℕ)
    → decode_entries (decode l) none (length_entries es) (encode_entries es ++ rest) (length hd)
      ≡ ok (es, length hd + length (encode_entries es))
    → decode_major (decode l) 5 (length_entries es) (length hd) (hd ++ (encode_entries es ++ rest))
      ≡ ok (cbor_map es, length (hd ++ encode_entries es))
unfolding decode_major
decode_major-map l hd es rest h =
    rw (drop-append hd (encode_entries es ++ rest), h, length-append hd (encode_entries es))
      (ground (
        arith,
        length_entries-le es,
        length-append hd (encode_entries es ++ rest),
        length-append (encode_entries es) rest,
      ))

pub decode-major_7 :
    (l x : ℕ) (rest : List ℕ)
    → x / 32 ≡ 7
    → decode (suc l) (x ∷ rest) ≡ decode_simple (bit_and x 0x1f)
unfolding decode
decode-major_7 l x rest h = rw h (ground arith)

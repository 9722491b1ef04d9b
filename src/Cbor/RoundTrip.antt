-- ===== src/Cbor/RoundTrip.antt =====
-- Decoding what was encoded.
pub mod Majors
use npamp_protocol.Cbor.RoundTrip.Majors.{
  decode-HeadOf, decode_string-append, decode-encode_head, decode_items_step, decode_entries_step,
  decode_major-array, decode_major-map, decode-major_7,
}
use mathlib.Core.List.{append_assoc, append-nil}
use native.Mathlib.Nat.{add_assoc, add-zero}
use npamp_protocol.Cbor.{
  Value, uint64, int, int64, bytes, text, array, cbor_map, umap, bool, nil, encode_head,
}
use npamp_protocol.Cbor.{
  Items, no_item, item, Entries, no_entry, entry, encode, encode_items, encode_entries,
  length_items, length_entries, encode_pairs, concat_encoded, sort_encoded,
}
use Prim.Native.Nat.{bit_and}
use npamp_protocol.Cbor.Canonical.{IsCanonical, IsCanonicalItems, IsCanonicalEntries}
use npamp_protocol.Cbor.Decoder.{
  CborError, decode, decode_items, decode_entries, decode_major, decode_string, decode_simple,
  decode_top, out_of_order, cbor_max_nesting_depth,
}
use npamp_protocol.Cbor.Head.{HeadOf, encode_head-HeadOf}
use npamp_protocol.Prelude.{
  ℕ, zero, suc, ◌+◌, ◌/◌, ◌^◌, ◌<◌, ◌≤◌, ◌≡◌, refl, ◌∙◌, ap, arith, Bool, true, false,
}
use npamp_protocol.Prelude.{List, [], ◌∷◌, ◌++◌, length, Option, some, none, Result, ok}
use npamp_protocol.Prelude.{length-append, drop-append, take-append}
use npamp_protocol.Prelude.Int.{pos, negsuc}
use npamp_protocol.Prelude.Bytes.{slice_middle}

module _ (l : ℕ) (rest : List ℕ) where
  decode-uint64 :
      (n : ℕ)
      → n < 2 ^ 64
      → decode (suc l) (encode_head 0 n ++ rest) ≡ ok (uint64 n, length (encode_head 0 n))
  decode-uint64 n h =
      decode-HeadOf l _ 0 n _ (encode_head-HeadOf 0 n rest (omega arith) h) (omega arith)
      ∙ unfold decode_major in refl

  decode-negative :
      (n : ℕ)
      → n < 2 ^ 63
      → decode (suc l) (encode_head 1 n ++ rest) ≡ ok (int64 (negsuc n), length (encode_head 1 n))
  decode-negative n h =
      decode-HeadOf l _ 1 n _ (encode_head-HeadOf 1 n rest (omega arith) (omega arith))
        (omega arith)
      ∙ unfold decode_major in ground arith

  decode-bytes :
      (bs : List ℕ)
      → length bs < 2 ^ 64
      → decode (suc l) ((encode_head 2 (length bs) ++ bs) ++ rest)
        ≡ ok (bytes bs, length (encode_head 2 (length bs) ++ bs))
  unfolding decode_major
  decode-bytes bs h =
      decode-encode_head l 2 (length bs) (omega arith) h bs rest
      ∙ decode_string-append bytes (encode_head 2 (length bs)) bs rest
      ∙ rw length-append

  decode-text :
      (bs : List ℕ)
      → length bs < 2 ^ 64
      → decode (suc l) ((encode_head 3 (length bs) ++ bs) ++ rest)
        ≡ ok (text bs, length (encode_head 3 (length bs) ++ bs))
  unfolding decode_major
  decode-text bs h =
      decode-encode_head l 3 (length bs) (omega arith) h bs rest
      ∙ decode_string-append text (encode_head 3 (length bs)) bs rest
      ∙ rw length-append

  decode-simple :
      (b : Bool) → decode (suc l) (encode (bool b) ++ rest) ≡ ok (bool b, length (encode (bool b)))
  unfolding encode decode_simple
  decode-simple true = decode-major_7 l 0xf5 rest refl
  decode-simple false = decode-major_7 l 0xf4 rest refl

  decode-nil : decode (suc l) (encode nil ++ rest) ≡ ok (nil, length (encode nil))
  unfolding encode decode_simple
  decode-nil = decode-major_7 l 0xf6 rest refl

mutual
  unfolding IsCanonical encode decode_items decode_entries

  decode-encode_append :
      (v : Value) (l : ℕ) (rest : List ℕ)
      → IsCanonical l v
      → decode l (encode v ++ rest) ≡ ok (v, length (encode v))
  decode-encode_append v zero rest h = absurd h
  decode-encode_append (uint64 n) (suc l) rest h = decode-uint64 l rest n h
  decode-encode_append (int z) (suc l) rest h = absurd h
  decode-encode_append (int64 (pos n)) (suc l) rest h = absurd h
  decode-encode_append (int64 (negsuc n)) (suc l) rest h = decode-negative l rest n h
  decode-encode_append (bytes bs) (suc l) rest h = decode-bytes l rest bs h
  decode-encode_append (text bs) (suc l) rest h = decode-text l rest bs h
  decode-encode_append (array vs) (suc l) rest h =
      decode-encode_head l 4 (length_items vs) (omega arith) h.0 (encode_items vs) rest
      ∙ decode_major-array l (encode_head 4 (length_items vs)) vs rest
          (decode_items-encode_items vs l rest (length (encode_head 4 (length_items vs))) h.1)
  decode-encode_append (cbor_map es) (suc l) rest h =
      decode-encode_head l 5 (length_entries es) (omega arith) h.0 (encode_entries es) rest
      ∙ decode_major-map l (encode_head 5 (length_entries es)) es rest (
          decode_entries-encode_entries es l none rest (length (encode_head 5 (length_entries es)))
            h.1)
  decode-encode_append (umap ps) (suc l) rest h = absurd h
  decode-encode_append (bool true) (suc l) rest h = decode-simple l rest true
  decode-encode_append (bool false) (suc l) rest h = decode-simple l rest false
  decode-encode_append nil (suc l) rest h = decode-nil l rest

  decode_items-encode_items :
      (vs : Items) (l : ℕ) (rest : List ℕ) (off : ℕ)
      → IsCanonicalItems l vs
      → decode_items (decode l) (length_items vs) (encode_items vs ++ rest) off
        ≡ ok (vs, off + length (encode_items vs))
  decode_items-encode_items no_item l rest off h = rw add-zero
  decode_items-encode_items (item v vs) l rest off h =
      decode_items_step (decode l) (length_items vs) off (encode v) (encode_items vs) rest v vs
        (decode-encode_append v l (encode_items vs ++ rest) h.0)
        (decode_items-encode_items vs l rest (off + length (encode v)) h.1)

  decode_entries-encode_entries :
      (es : Entries) (l : ℕ) (prev : Option (List ℕ)) (rest : List ℕ) (off : ℕ)
      → IsCanonicalEntries l prev es
      → decode_entries (decode l) prev (length_entries es) (encode_entries es ++ rest) off
        ≡ ok (es, off + length (encode_entries es))
  decode_entries-encode_entries no_entry l prev rest off h = rw add-zero
  decode_entries-encode_entries (entry k key val es) l prev rest off h =
      decode_entries_step (decode l) (length_entries es) off (encode val) (encode_entries es) rest
        prev k key val es
        (rw h.0 (decode-encode_append key l (encode val ++ (encode_entries es ++ rest)) h.2)) h.1
        (decode-encode_append val l (encode_entries es ++ rest) h.3)
        (decode_entries-encode_entries es l (some k) rest ((off + length k) + length (encode val))
          h.4)

-- A canonical value is read back from its encoding.
pub decode_top-encode :
    (v : Value) → IsCanonical cbor_max_nesting_depth v → decode_top (encode v) ≡ ok v
unfolding decode_top
decode_top-encode v h =
    let e = rw (append-nil) at (decode-encode_append v cbor_max_nesting_depth [] h) in
    rw e (ground arith)

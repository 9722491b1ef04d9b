-- ===== src/Cbor/Decoder.antt =====
-- The decoder of impl/go/memory_cbor.go. cborDecode's depth d is here `levels` = 9 - d, so that
-- depth 9 is no level left; the recursion is bounded as the source bounds it, and takes no fuel.
use Prim.Native.Nat.{bit_and}
use npamp_protocol.Prelude.{ℕ, zero, suc, ◌+◌, ◌-◌, ◌/◌, ◌^◌}
use npamp_protocol.Prelude.{Bool, true, false, not, ltb, ◌==◌, if◌then◌else◌, ◌||◌}
use npamp_protocol.Prelude.{List, length, Option, some, none, get_or, take, drop}
use npamp_protocol.Prelude.{Result, ok, err, ◌>>=◌, ◌>>◌, fail_if}
use npamp_protocol.Prelude.Int.{negsuc}
use npamp_protocol.Prelude.Bytes.{get_be, slice}
use npamp_protocol.Cbor.{Value, uint64, int64, bytes, text, array, cbor_map, bool, nil, byte_less}
use npamp_protocol.Cbor.{Items, no_item, item, Entries, no_entry, entry}

pub data CborError : Type 0 where
  trailing truncated not_shortest indefinite unsupported map_order depth_exceeded : CborError

abbrev pub cbor_max_nesting_depth : ℕ
cbor_max_nesting_depth = 8

-- An argument of `size` octets after the first one, at least `least`.
abbrev pub wide_arg : ℕ → ℕ → List ℕ → Result CborError (ℕ × ℕ)
wide_arg size least b = do
  fail_if (ltb (length b) (suc size)) truncated
  let v = get_be (slice b 1 (suc size))
  fail_if (ltb v least) not_shortest
  ok (v, suc size)

-- The argument and the length of the header.
unfoldable pub decode_arg : ℕ → List ℕ → Result CborError (ℕ × ℕ)
decode_arg ai b =
    if ltb ai 24
    then ok (ai, 1)
    else if ai == 24
    then wide_arg 1 24 b
    else if ai == 25
    then wide_arg 2 (2 ^ 8) b
    else if ai == 26
    then wide_arg 4 (2 ^ 16) b
    else if ai == 27
    then wide_arg 8 (2 ^ 32) b
    else if ai == 31
    then err indefinite
    else err unsupported

unfoldable pub decode_simple : ℕ → Result CborError (Value × ℕ)
decode_simple ai =
    if ai == 20
    then ok (bool false, 1)
    else if ai == 21
    then ok (bool true, 1)
    else if ai == 22
    then ok (nil, 1)
    else err unsupported

-- Byte and text strings. `int(arg)` is exact where the first test has not failed.
unfoldable pub decode_string : (List ℕ → Value) → ℕ → ℕ → List ℕ → Result CborError (Value × ℕ)
decode_string make arg n b = do
  fail_if (ltb (length b) arg || ltb (length b) (n + arg)) truncated
  ok (make (slice b n (n + arg)), n + arg)

-- The loop over the elements: `b` is what is left, `off` how much is behind it.
unfoldable pub decode_items :
    (List ℕ → Result CborError (Value × ℕ)) → ℕ → List ℕ → ℕ → Result CborError (Items × ℕ)
decode_items decode_one zero b off = ok (no_item, off)
decode_items decode_one (suc count) b off = do
  (el, en) ← decode_one b
  (els, end) ← decode_items decode_one count (drop en b) (off + en)
  ok (item el els, end)

-- `prevKeyEnc != nil && !byteLess(prevKeyEnc, keyEnc)`
unfoldable pub out_of_order : Option (List ℕ) → List ℕ → Bool
out_of_order none k = false
out_of_order (some prev) k = not (byte_less prev k)

unfoldable pub decode_entries :
    (List ℕ → Result CborError (Value × ℕ))
    → Option (List ℕ)
    → ℕ
    → List ℕ
    → ℕ
    → Result CborError (Entries × ℕ)
unfolding out_of_order
decode_entries decode_one prev zero b off = ok (no_entry, off)
decode_entries decode_one prev (suc count) b off = do
  (key, kn) ← decode_one b
  let key_enc = take kn b
  fail_if (out_of_order prev key_enc) map_order
  (val, vn) ← decode_one (drop kn b)
  (es, end) ← decode_entries decode_one (some key_enc) count (drop vn (drop kn b)) ((off + kn) + vn)
  ok (entry key_enc key val es, end)

-- The switch on the major type, after the argument.
unfoldable pub decode_major :
    (List ℕ → Result CborError (Value × ℕ)) → ℕ → ℕ → ℕ → List ℕ → Result CborError (Value × ℕ)
decode_major decode_one major arg n b =
    if major == 0
    then ok (uint64 arg, n)
    else if major == 1
    then (if ltb (2 ^ 63 - 1) arg then err unsupported else ok (int64 (negsuc arg), n))
    else if major == 2
    then decode_string bytes arg n b
    else if major == 3
    then decode_string text arg n b
    else if major == 4
    then (do
      fail_if (ltb (length b - n) arg) truncated
      (els, end) ← decode_items decode_one arg (drop n b) n
      ok (array els, end))
    else if major == 5
    then (do
      fail_if (ltb (length b - n) arg) truncated
      (es, end) ← decode_entries decode_one none arg (drop n b) n
      ok (cbor_map es, end))
    else err unsupported

-- cborDecode
unfoldable pub decode : ℕ → List ℕ → Result CborError (Value × ℕ)
decode zero b = err depth_exceeded
decode (suc levels) b =
    let ib = get_or b 0 0 in
    let major = ib / 32 in
    let ai = bit_and ib 0x1f in
    if length b == 0
    then err truncated
    else if major == 7
    then decode_simple ai
    else (do (arg, n) ← decode_arg ai b; decode_major (decode levels) major arg n b)

-- cborDecodeTop: nothing may follow the item.
unfoldable pub decode_top : List ℕ → Result CborError Value
decode_top b = do
  (v, n) ← decode cbor_max_nesting_depth b
  fail_if (not (n == length b)) trailing
  ok v

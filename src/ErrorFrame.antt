-- ===== src/ErrorFrame.antt =====
-- ERROR frames: impl/go/errorframe.go. Codes, their reactions, and the two-key body.
pub mod Body
use Prim.Native.Nat.{bit_and}
use npamp_protocol.Prelude.{ℕ, ◌+◌, ◌/◌, ◌^◌, ◌≤◌, ◌<◌, ◌≡◌}
use npamp_protocol.Prelude.{Bool, true, false, not, ◌&&◌, ◌||◌, ltb, leb, ◌==◌, if◌then◌else◌}
use npamp_protocol.Prelude.{List, [], ◌∷◌, ◌++◌, length, get_or, take, drop}
use npamp_protocol.Prelude.{Result, ok, err, ◌>>=◌, ◌>>◌, fail_if}
use npamp_protocol.Prelude.Bytes.{get_be, slice}
use npamp_protocol.Cbor.{encode, uint64, bytes, umap, pair, no_pair}

-- A SessionErrorCode is a uint8; these are the registered ones.
abbrev pub unexpected_message : ℕ
unexpected_message = 1

abbrev pub replay_detected : ℕ
replay_detected = 3

abbrev pub unknown_channel : ℕ
unknown_channel = 4

abbrev pub key_update_out_of_order : ℕ
key_update_out_of_order = 9

pub data ErrorReaction : Type 0 where
  fatal discard : ErrorReaction

unfoldable pub reaction : ℕ → ErrorReaction
reaction c = if c == replay_detected || c == unknown_channel then discard else fatal

pub data BodyError : Type 0 where
  malformed_error_body : BodyError

-- A nil context is encoded as an empty one, and is `[]` here.
unfoldable pub encode_error_body : ℕ → List ℕ → List ℕ
encode_error_body code ctx = encode (umap (pair 1 (uint64 code) (pair 2 (bytes ctx) no_pair)))

-- The switch of cborReadUint on the additional information.
unfoldable pub read_uint_arg : ℕ → List ℕ → Result BodyError (ℕ × ℕ)
read_uint_arg ai b =
    if ltb ai 24
    then ok (ai, 1)
    else if ai == 24
    then (do
      fail_if (ltb (length b) 2 || ltb (get_be (slice b 1 2)) 24) malformed_error_body
      ok (get_be (slice b 1 2), 2))
    else if ai == 25
    then (do
      fail_if (ltb (length b) 3) malformed_error_body
      let v = get_be (slice b 1 3)
      fail_if (ltb v 256) malformed_error_body
      ok (v, 3))
    else err malformed_error_body

-- cborReadUint
unfoldable pub read_uint : List ℕ → Result BodyError (ℕ × ℕ)
unfolding read_uint_arg
read_uint b = do
  fail_if (ltb (length b) 1 || not (get_or b 0 0 / 32 == 0)) malformed_error_body
  read_uint_arg (bit_and (get_or b 0 0) 0x1f) b

-- cborReadBstr. A length that was read is below 2 ^ 16, so `hn + int(ln)` does not wrap.
unfoldable pub read_bstr : List ℕ → Result BodyError (List ℕ × ℕ)
unfolding read_uint
read_bstr b = do
  fail_if (ltb (length b) 1 || not (get_or b 0 0 / 32 == 2)) malformed_error_body
  (ln, hn) ← read_uint (bit_and (get_or b 0 0) 0x1f ∷ drop 1 b)
  let end = hn + ln
  fail_if (ltb end hn || ltb (length b) end) malformed_error_body
  ok (slice b hn end, end)

-- A key that must stand at position `p`.
abbrev pub expect_key : ℕ → ℕ → List ℕ → Result BodyError (Unit {0})
expect_key key p b = fail_if (leb (length b) p || not (get_or b p 0 == key)) malformed_error_body

unfoldable pub decode_error_body : List ℕ → Result BodyError (ℕ × List ℕ)
decode_error_body b = do
  fail_if (ltb (length b) 1 || not (get_or b 0 0 == 0xa2)) malformed_error_body
  expect_key 0x01 1 b
  (code, n) ← read_uint (drop 2 b)
  fail_if (ltb 255 code) malformed_error_body
  let p = 2 + n
  expect_key 0x02 p b
  (ctx, m) ← read_bstr (drop (p + 1) b)
  fail_if (not ((p + 1) + m == length b)) malformed_error_body
  ok (code, ctx)

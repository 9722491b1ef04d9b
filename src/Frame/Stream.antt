-- ===== src/Frame/Stream.antt =====
-- ReadFrame on a byte stream: framing, truncated input, and input that goes on.
use npamp_protocol.Frame.Header.{unmarshal_binary-Accepts}
use npamp_protocol.Frame.RoundTrip.{
  IsWire, unmarshal_binary-marshal_binary, marshal_binary-unmarshal_binary,
}
use npamp_protocol.Frame.{Frame, short_header, incomplete_frame, unmarshal_binary, max_frame_size}
use npamp_protocol.Frame.{marshal_binary, read_frame, header_size}
use npamp_protocol.Prelude.{ℕ, ◌+◌, ◌≤◌, ◌≡◌, ◌∙◌, arith, ap}
use npamp_protocol.Prelude.{List, ◌++◌, length, ok, err, All, take}
use npamp_protocol.Prelude.{length-append, take-append_le, length-drop, length-take}
use npamp_protocol.Prelude.{take-append, All-take, ◌≢◌, ltb, inl, inr, Bool-cases}
use npamp_protocol.Prelude.Bytes.{get_be, slice, IsByte, slice-append_le}

-- All that a successful call has found.
record Reads (buf : List ℕ) (f : Frame) (n : ℕ) : Type 0 where
  long : 36 ≤ length buf
  total : n ≡ 36 + get_be (slice buf 17 21)
  small : n ≤ max_frame_size
  there : n ≤ length buf
  parsed : unmarshal_binary (take n buf) ≡ ok f

read_frame-Reads : (buf : List ℕ) (f : Frame) (n : ℕ) → read_frame buf ≡ ok (f, n) → Reads buf f n
unfolding read_frame
read_frame-Reads buf f n h = ground arith

Reads-read_frame : (buf : List ℕ) (f : Frame) (n : ℕ) → Reads buf f n → read_frame buf ≡ ok (f, n)
unfolding read_frame
Reads-read_frame buf f n r = ground (arith, ap (λ (t : ℕ). unmarshal_binary (take t buf)) r.total)

module _ (buf : List ℕ) (f : Frame) (h : unmarshal_binary buf ≡ ok f) where
  pub length-unmarshalled : length buf ≡ 36 + length f.payload
  length-unmarshalled =
      let a = unmarshal_binary-Accepts buf f h in
      rw a.payload (omega (arith, a.long, length-drop 36 buf))

  declared-unmarshalled : get_be (slice buf 17 21) ≡ length f.payload
  declared-unmarshalled =
      let a = unmarshal_binary-Accepts buf f h in a.sized ∙ omega (arith, length-unmarshalled)

pub payload-marshal_binary : (f : Frame) → (marshal_binary f).0.payload ≡ f.payload
unfolding marshal_binary
payload-marshal_binary f = ground arith

-- The encoding of a frame that fits the wire and the size cap is found, with its length, at
-- the front of a buffer, whatever follows it.
pub read_frame-marshal_binary :
    (f : Frame) (rest : List ℕ)
    → IsWire f
    → header_size + length f.payload ≤ max_frame_size
    → read_frame ((marshal_binary f).1 ++ rest)
      ≡ ok ((marshal_binary f).0, header_size + length f.payload)
read_frame-marshal_binary f rest w small =
    let wire = (marshal_binary f).1 in
    let parsed = unmarshal_binary-marshal_binary f w in
    let size : length wire ≡ 36 + length f.payload =
      length-unmarshalled wire _ parsed
      ∙ ap (λ (p : List ℕ). 36 + length p) (payload-marshal_binary f) in
    let whole : take (36 + length f.payload) (wire ++ rest) ≡ wire =
      rw (← size) (take-append wire rest) in
    Reads-read_frame (wire ++ rest) _ _ (record {
      long = omega (arith, length-append wire rest, size);
      total = omega (
        arith,
        ap get_be (slice-append_le wire rest 17 21 (omega arith) (omega (arith, size))),
        declared-unmarshalled wire _ parsed,
        ap length (payload-marshal_binary f),
      );
      small = small;
      there = omega (arith, length-append wire rest, size);
      parsed = rw whole parsed;
    })

-- On an octet string, a successful ReadFrame has taken the header and the declared payload,
-- within the cap and the buffer; the octets taken are the encoding of the frame.
pub read_frame_sound :
    (buf : List ℕ) (f : Frame) (n : ℕ)
    → All IsByte buf
    → read_frame buf ≡ ok (f, n)
    → (n ≡ header_size + length f.payload)
      × (n ≤ max_frame_size)
      × (n ≤ length buf)
      × ((marshal_binary f).1 ≡ take n buf)
read_frame_sound buf f n bytes h =
    let r = read_frame-Reads buf f n h in
    (
      omega (arith, length-unmarshalled (take n buf) f r.parsed, length-take n buf, r.there),
      r.small,
      r.there,
      marshal_binary-unmarshal_binary (take n buf) f (All-take IsByte n buf bytes) r.parsed,
    )

-- Octets that arrive later change no result of ReadFrame but the two errors that ask for more
-- input.
pub read_frame-append :
    (buf more : List ℕ)
    → read_frame buf ≢ err short_header
    → read_frame buf ≢ err incomplete_frame
    → read_frame (buf ++ more) ≡ read_frame buf
unfolding read_frame
read_frame-append buf more p q = elim (Bool-cases (ltb (length buf) 36)) [
  | inl e ↦ absurd (p (rw e))
  | inr e ↦
      let n = 36 + get_be (slice buf 17 21) in
      let long : 36 ≤ length buf = ground arith in
      let there : length buf ≤ length (buf ++ more) = omega (arith, length-append buf more) in
      rw (slice-append_le buf more 17 21 (omega arith) (omega arith))
        (elim (Bool-cases (ltb (length buf) n)) [
          | inl e' ↦ ground arith
          | inr e' ↦ rw (take-append_le n buf more (ground arith)) (ground arith)
        ])
]

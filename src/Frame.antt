-- ===== src/Frame.antt =====
-- The 36-octet frame codec of impl/go/frame.go. A byte slice is a list of numbers below 256;
-- a method that writes through its receiver returns the new frame.
pub mod Crc
pub mod Header
pub mod RoundTrip
pub mod Stream
use Crc.{checksum}
use Prim.Native.Nat.{bit_and, bit_or}
use npamp_protocol.Prelude.{ℕ, ◌+◌, ◌-◌, ◌*◌, ◌/◌, ◌%◌, ◌^◌, ◌≤◌, ◌<◌, ◌≡◌}
use npamp_protocol.Prelude.{Bool, true, false, not, ◌&&◌, ◌||◌, ltb, leb, ◌==◌, if◌then◌else◌}
use npamp_protocol.Prelude.{List, [], ◌∷◌, ◌++◌, length, get_or, take, drop, replicate}
use npamp_protocol.Prelude.{Result, ok, err, ◌>>=◌, ◌>>◌, fail_if}
use npamp_protocol.Prelude.Bytes.{put_be, get_be, slice}

abbrev pub header_size : ℕ
header_size = 36

abbrev pub max_frame_size : ℕ
max_frame_size = 16 * 2 ^ 20

abbrev pub protocol_version : ℕ
protocol_version = 2

abbrev pub magic : List ℕ
magic = 0x4e ∷ 0x50 ∷ 0x41 ∷ 0x4d ∷ []

abbrev pub flag_enc : ℕ
flag_enc = 0x02

abbrev pub reserved_flag_mask : ℕ
reserved_flag_mask = 0x09

pub data FrameError : Type 0 where
  short_header bad_magic bad_version bad_crc reserved_nonzero : FrameError
  reserved_flag length_mismatch incomplete_frame frame_too_large : FrameError

pub record Frame : Type 0 where
  pub version : ℕ  -- uint8
  pub flags : ℕ  -- uint8
  pub type : ℕ  -- uint16
  pub channel : ℕ  -- uint16
  pub seq : ℕ  -- uint64
  pub payload : List ℕ

-- `ver << 4 | flags & 0x0F`, a uint8.
abbrev pub version_flags : ℕ → ℕ → ℕ
version_flags ver flags = bit_or (ver * 16 % 256) (bit_and flags 0x0f)

-- The 21 octets that the CRC covers.
unfoldable pub header_prefix : Frame → ℕ → List ℕ
header_prefix f payload_len =
    let ver = if f.version == 0 then protocol_version else f.version in
    magic
    ++ (version_flags ver f.flags
        ∷ (put_be 2 f.type ++ (put_be 2 f.channel ++ (put_be 8 f.seq ++ put_be 4 payload_len))))

unfoldable pub marshal_header_into : Frame → ℕ → List ℕ
marshal_header_into f payload_len =
    let prefix = header_prefix f payload_len in
    prefix ++ (put_be 4 (checksum prefix) ++ replicate 11 0)

-- A zero version is set to the protocol's in the receiver, too.
unfoldable pub marshal_binary : Frame → Frame × List ℕ
marshal_binary f =
    let g = if f.version == 0 then record f { version = protocol_version } else f in
    (g, marshal_header_into g (length f.payload % 2 ^ 32) ++ f.payload)

-- The loop over octets 25 to 35.
unfoldable pub any_nonzero : List ℕ → Bool
any_nonzero [] = false
any_nonzero (b ∷ bs) = not (b == 0) || any_nonzero bs

unfoldable pub unmarshal_binary : List ℕ → Result FrameError Frame
unmarshal_binary buf = do
  fail_if (ltb (length buf) header_size) short_header
  fail_if (not (get_be (slice buf 21 25) == checksum (slice buf 0 21))) bad_crc
  fail_if
      (not (get_or buf 0 0 == 0x4e)
        || not (get_or buf 1 0 == 0x50)
        || not (get_or buf 2 0 == 0x41)
        || not (get_or buf 3 0 == 0x4d))
      bad_magic
  let octet = get_or buf 4 0
  fail_if (not (octet / 16 == protocol_version)) bad_version
  fail_if (not (bit_and octet reserved_flag_mask == 0)) reserved_flag
  fail_if (any_nonzero (slice buf 25 header_size)) reserved_nonzero
  fail_if (not (get_be (slice buf 17 21) == length buf - header_size)) length_mismatch
  ok (record {
    version = octet / 16;
    flags = bit_and octet 0x0f;
    type = get_be (slice buf 5 7);
    channel = get_be (slice buf 7 9);
    seq = get_be (slice buf 9 17);
    payload = drop header_size buf;
  })

-- The frame at the front of the buffer, and the octets that it takes.
unfoldable pub read_frame : List ℕ → Result FrameError (Frame × ℕ)
read_frame buf = do
  fail_if (ltb (length buf) header_size) short_header
  let total = header_size + get_be (slice buf 17 21)
  fail_if (ltb max_frame_size total) frame_too_large
  fail_if (ltb (length buf) total) incomplete_frame
  f ← unmarshal_binary (take total buf)
  ok (f, total)

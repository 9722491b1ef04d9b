-- ===== src/Frame/Header.antt =====
-- What UnmarshalBinary accepts, as one record of facts about the buffer.
use Prim.Native.Nat.{bit_and}
use npamp_protocol.Frame.Crc.{checksum}
use npamp_protocol.Frame.{Frame, any_nonzero, unmarshal_binary}
use npamp_protocol.Prelude.{ℕ, ◌-◌, ◌/◌, ◌≤◌, ◌≡◌, arith}
use npamp_protocol.Prelude.{List, length, ok, get_or, drop, false}
use npamp_protocol.Prelude.Bytes.{get_be, slice}

pub record Accepts (buf : List ℕ) (f : Frame) : Type 0 where
  pub long : 36 ≤ length buf
  pub crc : get_be (slice buf 21 25) ≡ checksum (slice buf 0 21)
  pub magic_0 : get_or buf 0 0 ≡ 0x4e
  pub magic_1 : get_or buf 1 0 ≡ 0x50
  pub magic_2 : get_or buf 2 0 ≡ 0x41
  pub magic_3 : get_or buf 3 0 ≡ 0x4d
  pub wire_version : get_or buf 4 0 / 16 ≡ 2
  pub unreserved : bit_and (get_or buf 4 0) 0x09 ≡ 0
  pub zeros : any_nonzero (slice buf 25 36) ≡ false
  pub sized : get_be (slice buf 17 21) ≡ length buf - 36
  pub version : f.version ≡ 2
  pub flags : f.flags ≡ bit_and (get_or buf 4 0) 0x0f
  pub type : f.type ≡ get_be (slice buf 5 7)
  pub channel : f.channel ≡ get_be (slice buf 7 9)
  pub seq : f.seq ≡ get_be (slice buf 9 17)
  pub payload : f.payload ≡ drop 36 buf

pub unmarshal_binary-Accepts :
    (buf : List ℕ) (f : Frame) → unmarshal_binary buf ≡ ok f → Accepts buf f
unfolding unmarshal_binary
unmarshal_binary-Accepts buf f h = ground arith steps 10000000

pub Accepts-unmarshal_binary :
    (buf : List ℕ) (f : Frame) → Accepts buf f → unmarshal_binary buf ≡ ok f
unfolding unmarshal_binary
Accepts-unmarshal_binary buf f h = ground arith

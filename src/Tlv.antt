-- ===== src/Tlv.antt =====
-- The Type-Length-Value extensions of impl/go/tlv.go.
pub mod Encode
pub mod Decode
pub mod RoundTrip
pub mod Critical
use npamp_protocol.Prelude.{ℕ, zero, suc, ◌+◌, ◌%◌, ◌^◌, ◌/◌, ◌<◌, ◌≤◌, ◌≡◌}
use npamp_protocol.Prelude.{Bool, true, false, not, ◌&&◌, ltb, ◌==◌, if◌then◌else◌}
use npamp_protocol.Prelude.{List, [], ◌∷◌, ◌++◌, length, take, drop}
use npamp_protocol.Prelude.{Result, ok, err, ◌>>=◌, ◌>>◌, fail_if}
use npamp_protocol.Prelude.Bytes.{put_be, get_be, slice}
use Prim.Native.Nat.{bit_and}

abbrev pub max_tlvs_per_frame : ℕ
max_tlvs_per_frame = 64

abbrev pub kem_share : ℕ
kem_share = 0x07

abbrev pub kem_ciphertext : ℕ
kem_ciphertext = 0x08

abbrev pub key_update_marker_tag : ℕ
key_update_marker_tag = 0x17

abbrev pub ratchet_generation : ℕ
ratchet_generation = 0x19

-- `stuck` is no Go value: the loop ran out of fuel.
pub data TlvError : Type 0 where
  truncated_tlv too_many_tlvs stuck : TlvError

pub data CriticalError : Type 0 where
  unknown_critical_tlv : ℕ → CriticalError

pub record Tlv : Type 0 where
  pub type : ℕ  -- uint16
  pub value : List ℕ

-- The high bit of the type.
unfoldable pub forward_incompatible : ℕ → Bool
forward_incompatible t = not (bit_and t 0x8000 == 0)

unfoldable pub check_must_understand : List Tlv → (ℕ → Bool) → Result CriticalError (Unit {0})
check_must_understand [] recognized = ok tt
check_must_understand (t ∷ tlvs) recognized =
    if forward_incompatible t.type && not (recognized t.type)
    then err (unknown_critical_tlv t.type)
    else check_must_understand tlvs recognized

-- `uint16(len(Value))` cuts the length.
unfoldable pub encode : Tlv → List ℕ → List ℕ
encode t dst = (dst ++ (put_be 2 t.type ++ put_be 2 (length t.value % 2 ^ 16))) ++ t.value

-- Encode called for one TLV after the other on the same buffer.
unfoldable pub encode_all : List ℕ → List Tlv → List ℕ
encode_all dst [] = dst
encode_all dst (t ∷ tlvs) = encode_all (encode t dst) tlvs

-- One round of the loop of DecodeTLVs: the TLV at the front of a buffer that is not empty.
unfoldable pub decode_one : List ℕ → Result TlvError (Tlv × List ℕ)
decode_one buf = do
  fail_if (ltb (length buf) 4) truncated_tlv
  let typ = get_be (slice buf 0 2)
  let ln = get_be (slice buf 2 4)
  fail_if (ltb (length buf) (4 + ln)) truncated_tlv
  ok (record { type = typ; value = slice buf 4 (4 + ln) }, drop (4 + ln) buf)

-- Each round takes four octets at least, so the length of the buffer is enough fuel.
unfoldable pub decode_loop : ℕ → List Tlv → List ℕ → Result TlvError (List Tlv)
decode_loop fuel out [] = ok out
decode_loop zero out (b ∷ bs) = err stuck
decode_loop (suc fuel) out (b ∷ bs) = do
  (t, rest) ← decode_one (b ∷ bs)
  fail_if (ltb max_tlvs_per_frame (length (out ++ (t ∷ [])))) too_many_tlvs
  decode_loop fuel (out ++ (t ∷ [])) rest

unfoldable pub decode_tlvs : List ℕ → Result TlvError (List Tlv)
decode_tlvs buf = decode_loop (length buf) [] buf

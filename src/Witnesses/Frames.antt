-- ===== src/Witnesses/Frames.antt =====
-- The frame codec of impl/go/frame.go on one small frame.
use npamp_protocol.Prelude.{
  ℕ, ◌+◌, ◌≤◌, ◌≡◌, ◌≢◌, refl, inr, arith, List, [], ◌∷◌, ◌++◌, length, take, All,
}
use npamp_protocol.Prelude.{Bool, true, ltb, ◌&&◌, Result, ok, err}
use npamp_protocol.Prelude.Bytes.{IsByte, put_be, get_be}
use npamp_protocol.Frame.{
  Frame, unmarshal_binary, marshal_binary, marshal_header_into, header_prefix, any_nonzero,
  read_frame, header_size, max_frame_size,
}
use npamp_protocol.Frame.Crc.{checksum}
use npamp_protocol.Frame.RoundTrip.{
  IsWire, unmarshal_binary-marshal_binary, marshal_binary-unmarshal_binary,
}
use npamp_protocol.Frame.Stream.{read_frame_sound, read_frame-marshal_binary, read_frame-append}

abbrev pub sample_frame : Frame
sample_frame = record {
  version = 2;
  flags = 2;
  type = 0x0102;
  channel = 3;
  seq = 5;
  payload = 1 ∷ 2 ∷ 3 ∷ [];
}

abbrev pub sample_wire : List ℕ
sample_wire =
    78 ∷ 80 ∷ 65 ∷ 77 ∷ 34 ∷ 1 ∷ 2 ∷ 0 ∷ 3 ∷ 0 ∷ 0 ∷ 0 ∷ 0 ∷ 0 ∷ 0 ∷ 0 ∷ 5 ∷ 0 ∷ 0 ∷ 0 ∷ 3 ∷ 114
    ∷ 172 ∷ 212 ∷ 33 ∷ 0 ∷ 0 ∷ 0 ∷ 0 ∷ 0 ∷ 0 ∷ 0 ∷ 0 ∷ 0 ∷ 0 ∷ 0 ∷ 1 ∷ 2 ∷ 3 ∷ []

unfoldable pub octets_fit : List ℕ → Bool
octets_fit [] = true
octets_fit (b ∷ bs) = ltb b 256 && octets_fit bs

pub octets_fit→IsByte : (bs : List ℕ) → octets_fit bs ≡ true → All IsByte bs
unfolding octets_fit
octets_fit→IsByte [] h = tt
octets_fit→IsByte (b ∷ bs) h = (ground arith, octets_fit→IsByte bs (ground arith))

pub sample_wire-IsByte : All IsByte sample_wire
unfolding octets_fit
sample_wire-IsByte = octets_fit→IsByte sample_wire refl

pub sample_frame-IsWire : IsWire sample_frame
sample_frame-IsWire = record {
  versioned = inr refl;
  flags_fit = omega arith;
  unreserved = refl;
  type_fits = omega arith;
  channel_fits = omega arith;
  seq_fits = omega arith;
  payload_fits = omega arith;
}

marshal_test : (marshal_binary sample_frame).1 ≡ sample_wire
unfolding marshal_binary marshal_header_into header_prefix put_be checksum
marshal_test = refl

pub unmarshal_test : unmarshal_binary sample_wire ≡ ok sample_frame
unfolding unmarshal_binary get_be checksum any_nonzero
unmarshal_test = refl

read_frame_test : read_frame sample_wire ≡ ok (sample_frame, 39)
unfolding read_frame unmarshal_binary get_be checksum any_nonzero
read_frame_test = refl

unmarshal_binary-marshal_binary_example :
    unmarshal_binary (marshal_binary sample_frame).1 ≡ ok (marshal_binary sample_frame).0
unmarshal_binary-marshal_binary_example =
    unmarshal_binary-marshal_binary sample_frame sample_frame-IsWire

marshal_binary-unmarshal_binary_example : (marshal_binary sample_frame).1 ≡ sample_wire
marshal_binary-unmarshal_binary_example =
    marshal_binary-unmarshal_binary sample_wire sample_frame sample_wire-IsByte unmarshal_test

read_frame-marshal_binary_example :
    read_frame ((marshal_binary sample_frame).1 ++ sample_wire)
    ≡ ok ((marshal_binary sample_frame).0, 39)
read_frame-marshal_binary_example =
    read_frame-marshal_binary sample_frame sample_wire sample_frame-IsWire (omega arith)

read_frame_sound_example :
    (39 ≡ header_size + 3)
    × (39 ≤ max_frame_size)
    × (39 ≤ length sample_wire)
    × ((marshal_binary sample_frame).1 ≡ take 39 sample_wire)
read_frame_sound_example =
    read_frame_sound sample_wire sample_frame 39 sample_wire-IsByte read_frame_test

pub ok-ne-err {ℓ κ} :
    {E : Type ℓ} {A : Type κ} {r : Result E A} {a : A} {e : E} → r ≡ ok a → r ≢ err e
ok-ne-err p q = ground arith

read_frame-append_example : read_frame (sample_wire ++ (9 ∷ [])) ≡ read_frame sample_wire
read_frame-append_example =
    read_frame-append sample_wire (9 ∷ []) (ok-ne-err read_frame_test) (ok-ne-err read_frame_test)

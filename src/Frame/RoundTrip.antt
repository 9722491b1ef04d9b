-- ===== src/Frame/RoundTrip.antt =====
-- MarshalBinary and UnmarshalBinary undo each other.
use Prim.Native.Nat.{bit_and}
use npamp_protocol.Frame.Crc.{checksum, checksum-lt}
use npamp_protocol.Frame.Header.{Accepts, unmarshal_binary-Accepts, Accepts-unmarshal_binary}
use npamp_protocol.Frame.{Frame, any_nonzero, unmarshal_binary, magic}
use npamp_protocol.Frame.{header_prefix, marshal_header_into, marshal_binary, version_flags}
use npamp_protocol.Prelude.{ℕ, ◌+◌, ◌-◌, ◌/◌, ◌%◌, ◌^◌, ◌≤◌, ◌<◌, ◌≡◌, refl, sym, ◌∙◌, arith}
use npamp_protocol.Prelude.{
  List, [], ◌∷◌, ◌++◌, length, ok, get_or, drop, false, All, replicate, take,
}
use npamp_protocol.Prelude.{take-append-drop}
use npamp_protocol.Prelude.{◌⊎◌, inl, inr}
use npamp_protocol.Prelude.Bytes.{put_be, get_be, slice, IsByte, get_be-put_be}
use npamp_protocol.Prelude.Bytes.{
  slice-append, slice-get_or, get_or-IsByte, put_be-slice, length-slice,
}
use npamp_protocol.Prelude.Bytes.{get_be-lt, slice-IsByte}
use npamp_protocol.Prelude.{length-drop, ap}
use npamp_protocol.Prelude.Bits.{and_0x0f, version_nibble, and_0x09_low}

-- A frame whose fields fit the wire.
pub record IsWire (f : Frame) : Type 0 where
  pub versioned : (f.version ≡ 0) ⊎ (f.version ≡ 2)
  pub flags_fit : f.flags < 16
  pub unreserved : bit_and f.flags 0x09 ≡ 0
  pub type_fits : f.type < 2 ^ 16
  pub channel_fits : f.channel < 2 ^ 16
  pub seq_fits : f.seq < 2 ^ 64
  pub payload_fits : length f.payload < 2 ^ 32

module _ (fl t ch sq : ℕ) (pl : List ℕ) where
  frame_2 : Frame
  frame_2 = record { version = 2; flags = fl; type = t; channel = ch; seq = sq; payload = pl }

  wire : List ℕ
  unfolding frame_2 marshal_header_into header_prefix
  wire = marshal_header_into frame_2 (length pl % 2 ^ 32) ++ pl

  wire-Accepts : IsWire frame_2 → Accepts wire frame_2
  unfolding wire put_be any_nonzero
  wire-Accepts w = record {
    long = omega arith;
    crc = get_be-put_be 4 (checksum (header_prefix frame_2 (length pl % 2 ^ 32))) (checksum-lt _);
    magic_0 = refl;
    magic_1 = refl;
    magic_2 = refl;
    magic_3 = refl;
    wire_version = rw (version_nibble fl w.flags_fit) (omega (arith, w.flags_fit));
    unreserved = rw (version_nibble fl w.flags_fit, and_0x09_low fl w.flags_fit) w.unreserved;
    zeros = refl;
    sized = get_be-put_be 4 (length pl % 2 ^ 32) (omega arith) ∙ omega (arith, w.payload_fits);
    version = refl;
    flags = rw (version_nibble fl w.flags_fit) (omega (arith, w.flags_fit, and_0x0f (32 + fl)));
    type = sym (get_be-put_be 2 t w.type_fits);
    channel = sym (get_be-put_be 2 ch w.channel_fits);
    seq = sym (get_be-put_be 8 sq w.seq_fits);
    payload = refl;
  }

IsWire-2 : (f : Frame) → IsWire f → IsWire (frame_2 f.flags f.type f.channel f.seq f.payload)
unfolding frame_2
IsWire-2 f w = record {
  versioned = inr refl;
  flags_fit = w.flags_fit;
  unreserved = w.unreserved;
  type_fits = w.type_fits;
  channel_fits = w.channel_fits;
  seq_fits = w.seq_fits;
  payload_fits = w.payload_fits;
}

-- A frame whose fields fit the wire (version 0 or 2, no reserved flag, no field wider than its
-- octets) is read back as it was marshalled: all fields as they were, but a version of zero,
-- which both sides then hold as 2.
pub unmarshal_binary-marshal_binary :
    (f : Frame) → IsWire f → unmarshal_binary (marshal_binary f).1 ≡ ok (marshal_binary f).0
unfolding marshal_binary wire
unmarshal_binary-marshal_binary f w = elim w.versioned [
  | inl e ↦ rw e (
      Accepts-unmarshal_binary _ _
        (wire-Accepts f.flags f.type f.channel f.seq f.payload (IsWire-2 f w)))
  | inr e ↦ rw e (
      Accepts-unmarshal_binary _ _
        (wire-Accepts f.flags f.type f.channel f.seq f.payload (IsWire-2 f w)))
]

octet_4 : (o : ℕ) → o < 256 → o / 16 ≡ 2 → version_flags 2 (bit_and o 0x0f) ≡ o
octet_4 o h v = rw (and_0x0f o h) (version_nibble (o % 16) (omega arith) ∙ omega arith)

zeros : (bs : List ℕ) → any_nonzero bs ≡ false → replicate (length bs) 0 ≡ bs
unfolding any_nonzero
zeros [] h = refl
zeros (b ∷ bs) h = ground (arith, zeros bs)

four_octets :
    (buf : List ℕ)
    → 4 ≤ length buf
    → take 4 buf ≡ get_or buf 0 0 ∷ get_or buf 1 0 ∷ get_or buf 2 0 ∷ get_or buf 3 0 ∷ []
four_octets (a ∷ b ∷ c ∷ d ∷ buf) h = refl
four_octets (a ∷ b ∷ c ∷ []) h = absurd (omega arith)
four_octets (a ∷ b ∷ []) h = absurd (omega arith)
four_octets (a ∷ []) h = absurd (omega arith)
four_octets [] h = absurd (omega arith)

-- The octets 0 to 20, in the parts that the header names, and 21 to the end.
prefix_parts :
    (buf : List ℕ)
    → slice buf 0 4
        ++ (slice buf 4 5
            ++ (slice buf 5 7 ++ (slice buf 7 9 ++ (slice buf 9 17 ++ slice buf 17 21))))
      ≡ slice buf 0 21
prefix_parts buf = rw (
  slice-append buf 9 17 21 (omega arith) (omega arith),
  slice-append buf 7 9 21 (omega arith) (omega arith),
  slice-append buf 5 7 21 (omega arith) (omega arith),
  slice-append buf 4 5 21 (omega arith) (omega arith),
  slice-append buf 0 4 21 (omega arith) (omega arith),
)

whole_parts :
    (buf : List ℕ) → (slice buf 0 21 ++ (slice buf 21 25 ++ slice buf 25 36)) ++ drop 36 buf ≡ buf
whole_parts buf =
    rw
      (
        slice-append buf 21 25 36 (omega arith) (omega arith),
        slice-append buf 0 21 36 (omega arith) (omega arith),
      )
      (take-append-drop 36 buf)

module _ (buf : List ℕ) (f : Frame) (bytes : All IsByte buf) (a : Accepts buf f) where
  four : magic ≡ slice buf 0 4
  four =
      rw (four_octets buf (omega (arith, a.long)), a.magic_0, a.magic_1, a.magic_2, a.magic_3) refl

  fifth : version_flags 2 f.flags ∷ [] ≡ slice buf 4 5
  fifth =
      rw (a.flags, octet_4 (get_or buf 4 0) (get_or-IsByte buf 4 bytes) a.wire_version)
        (sym (slice-get_or buf 4 (omega (arith, a.long))))

  number : (i j : ℕ) → i ≤ j → j ≤ 36 → put_be (j - i) (get_be (slice buf i j)) ≡ slice buf i j
  number i j p q = put_be-slice buf i j bytes p (omega (arith, a.long))

  type_field : put_be 2 f.type ≡ slice buf 5 7
  type_field = rw a.type (number 5 7 (omega arith) (omega arith))

  channel_field : put_be 2 f.channel ≡ slice buf 7 9
  channel_field = rw a.channel (number 7 9 (omega arith) (omega arith))

  seq_field : put_be 8 f.seq ≡ slice buf 9 17
  seq_field = rw a.seq (number 9 17 (omega arith) (omega arith))

  len_field : put_be 4 (length buf - 36) ≡ slice buf 17 21
  len_field = rw (← a.sized) (number 17 21 (omega arith) (omega arith))

  prefix-slice : header_prefix (record f { version = 2 }) (length buf - 36) ≡ slice buf 0 21
  unfolding header_prefix
  prefix-slice =
      (λ i.
        four i ++ (fifth i ++ (type_field i ++ (channel_field i ++ (seq_field i ++ len_field i)))))
      ∙ prefix_parts buf

  crc_field :
      put_be 4 (checksum (header_prefix (record f { version = 2 }) (length buf - 36)))
      ≡ slice buf 21 25
  crc_field = rw (prefix-slice, ← a.crc) (number 21 25 (omega arith) (omega arith))

  reserved_field : replicate 11 0 ≡ slice buf 25 36
  reserved_field =
      rw (length-slice buf 25 36 (omega arith) a.long) at (zeros (slice buf 25 36) a.zeros)

  header-slice :
      marshal_header_into (record f { version = 2 }) (length buf - 36) ++ drop 36 buf ≡ buf
  unfolding marshal_header_into
  header-slice =
      (λ i. (prefix-slice i ++ (crc_field i ++ reserved_field i)) ++ drop 36 buf) ∙ whole_parts buf

  payload-lt : length buf - 36 < 2 ^ 32
  payload-lt = omega (
    arith,
    a.sized,
    get_be-lt (slice buf 17 21) (slice-IsByte buf 17 21 bytes),
    ap (λ (n : ℕ). 256 ^ n) (length-slice buf 17 21 (omega arith) (omega (arith, a.long))),
  )

  payload_len : length f.payload % 2 ^ 32 ≡ length buf - 36
  payload_len = rw a.payload (rw (length-drop 36 buf) (omega (arith, payload-lt)))

-- An octet string that UnmarshalBinary accepts is what MarshalBinary writes for the frame that
-- it returns.
pub marshal_binary-unmarshal_binary :
    (buf : List ℕ) (f : Frame)
    → All IsByte buf
    → unmarshal_binary buf ≡ ok f
    → (marshal_binary f).1 ≡ buf
unfolding marshal_binary marshal_header_into header_prefix
marshal_binary-unmarshal_binary buf f bytes h =
    let a = unmarshal_binary-Accepts buf f h in
    rw (payload_len buf f bytes a, a.version, a.payload) (header-slice buf f bytes a)

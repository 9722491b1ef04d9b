-- ===== src/Session/Sealing.antt =====
-- sealWith and openWith of impl/go/sdk/conn.go undo each other.
use npamp_protocol.Crypto.{Crypto, IsAead}
use npamp_protocol.Frame.{Frame, flag_enc, header_prefix, marshal_binary, unmarshal_binary}
use npamp_protocol.Frame.RoundTrip.{IsWire, unmarshal_binary-marshal_binary}
use npamp_protocol.Frame.Stream.{length-unmarshalled, payload-marshal_binary}
use npamp_protocol.KeySchedule.{derive_nonce, seal_aes_256_gcm, open_aes_256_gcm}
use npamp_protocol.Session.Flows.{IsBounded}
use npamp_protocol.Session.State.{EpochKeys}
use npamp_protocol.Session.Wire.{seal_with, open_with, sealed_frame}
use npamp_protocol.Prelude.{ℕ, ◌+◌, ◌%◌, ◌^◌, ◌<◌, ◌≡◌, refl, ap, ◌∙◌, arith, inl}
use npamp_protocol.Prelude.{List, length, some, ok}

-- What the header and the tag leave for a text.
pub record FitsFrame (channel ft : ℕ) (plaintext : List ℕ) : Type 0 where
  pub channel_fits : channel < 2 ^ 16
  pub type_fits : ft < 2 ^ 16
  pub text_fits : length plaintext + 16 < 2 ^ 32

-- The frame on the wire is sealed, of the channel and type, in sequence, and opens to the text.
pub record IsSealed (c : Crypto) (st : EpochKeys) (channel ft : ℕ) (plaintext : List ℕ)
    (wire : List ℕ) : Type 0 where
  pub frame : Frame
  pub parsed : unmarshal_binary wire ≡ ok frame
  pub flags : frame.flags ≡ flag_enc
  pub of_type : frame.type ≡ ft
  pub on_channel : frame.channel ≡ channel
  pub in_sequence : frame.seq ≡ st.seq
  pub opened : open_with c st frame ≡ some plaintext

module _ (c : Crypto) (aead : IsAead c) (st : EpochKeys) (channel ft : ℕ) (plaintext : List ℕ) where
  aad : List ℕ
  aad = header_prefix (sealed_frame channel ft st.seq) ((length plaintext + 16) % 2 ^ 32)

  body : List ℕ
  unfolding aad
  body = seal_aes_256_gcm c st.key st.iv st.seq aad plaintext

  length-body : length body ≡ length plaintext + 16
  unfolding body seal_aes_256_gcm
  length-body = aead.length-seal st.key (derive_nonce st.iv st.seq) plaintext aad

  frame_sealed : Frame
  unfolding body
  frame_sealed = record (sealed_frame channel ft st.seq) { payload = body }

  frame_sealed-IsWire : IsBounded st → FitsFrame channel ft plaintext → IsWire frame_sealed
  unfolding frame_sealed
  frame_sealed-IsWire b h = record {
    versioned = inl refl;
    flags_fit = omega arith;
    unreserved = refl;
    type_fits = h.type_fits;
    channel_fits = h.channel_fits;
    seq_fits = b.seq;
    payload_fits = omega (arith, length-body, h.text_fits);
  }

  opens : open_with c st (marshal_binary frame_sealed).0 ≡ some plaintext
  unfolding open_with marshal_binary frame_sealed open_aes_256_gcm seal_aes_256_gcm header_prefix
      body aad
  opens = rw length-body (aead.unseal-seal st.key (derive_nonce st.iv st.seq) plaintext aad)

  -- With an AEAD that opens what it sealed: the octets that sealWith writes for a channel, a type and
  -- a text that fit the header parse as a sealed frame of that channel and type with the sequence of
  -- the keys, and openWith returns the text.
  pub seal_with-IsSealed :
      IsBounded st
      → FitsFrame channel ft plaintext
      → IsSealed c st channel ft plaintext (seal_with c st channel ft plaintext)
  unfolding seal_with marshal_binary frame_sealed body aad
  seal_with-IsSealed b h = record {
    frame = (marshal_binary frame_sealed).0;
    parsed = unmarshal_binary-marshal_binary frame_sealed (frame_sealed-IsWire b h);
    flags = refl;
    of_type = refl;
    on_channel = refl;
    in_sequence = refl;
    opened = opens;
  }

  pub length-seal_with :
      IsBounded st
      → FitsFrame channel ft plaintext
      → length (seal_with c st channel ft plaintext) ≡ 36 + (length plaintext + 16)
  unfolding seal_with frame_sealed body aad
  length-seal_with b h =
      let parsed = unmarshal_binary-marshal_binary frame_sealed (frame_sealed-IsWire b h) in
      length-unmarshalled (marshal_binary frame_sealed).1 (marshal_binary frame_sealed).0 parsed
      ∙ ap (λ (p : List ℕ). 36 + length p) (payload-marshal_binary frame_sealed)
      ∙ ap (λ (n : ℕ). 36 + n) length-body

-- ===== src/Tlv/Encode.antt =====
-- Encode, one TLV after the other.
use mathlib.Core.List.{append_assoc, append-nil}
use npamp_protocol.Tlv.{Tlv, encode, encode_all}
use npamp_protocol.Prelude.{
  length-append, ℕ, ◌+◌, ◌%◌, ◌^◌, ◌≡◌, refl, sym, ◌∙◌, ap, arith, List, [], ◌∷◌, ◌++◌, length,
}
use npamp_protocol.Prelude.Bytes.{put_be}

pub encode-append : (t : Tlv) (dst : List ℕ) → encode t dst ≡ dst ++ encode t []
unfolding encode
encode-append t dst =
    append_assoc dst (put_be 2 t.type ++ put_be 2 (length t.value % 2 ^ 16)) t.value

pub encode_all-snoc :
    (dst : List ℕ) (tlvs : List Tlv) (t : Tlv)
    → encode_all dst (tlvs ++ (t ∷ [])) ≡ encode t (encode_all dst tlvs)
unfolding encode_all
encode_all-snoc dst [] t = refl
encode_all-snoc dst (u ∷ tlvs) t = encode_all-snoc (encode u dst) tlvs t

pub encode_all-cons :
    (dst : List ℕ) (t : Tlv) (tlvs : List Tlv)
    → encode_all dst (t ∷ tlvs) ≡ encode_all (encode t dst) tlvs
unfolding encode_all
encode_all-cons dst t tlvs = refl

pub encode_all-append :
    (dst : List ℕ) (tlvs : List Tlv) → encode_all dst tlvs ≡ dst ++ encode_all [] tlvs
unfolding encode_all
encode_all-append dst [] = sym (append-nil dst)
encode_all-append dst (t ∷ tlvs) =
    encode_all-append (encode t dst) tlvs
    ∙ rw (encode-append t dst, append_assoc)
        (ap (λ e. dst ++ e) (sym (encode_all-append (encode t []) tlvs)))

pub length-encode : (t : Tlv) → length (encode t []) ≡ 4 + length t.value
unfolding encode put_be
length-encode t = omega arith

pub length-encode_onto :
    (t : Tlv) (dst : List ℕ) → length (encode t dst) ≡ length dst + (4 + length t.value)
length-encode_onto t dst =
    rw (encode-append t dst, length-append dst (encode t []), length-encode t) refl

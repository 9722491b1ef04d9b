-- ===== src/KeySchedule/Nonces.antt =====
-- The nonces of impl/go/aead.go.
use npamp_protocol.KeySchedule.{xor_octets, derive_nonce}
use npamp_protocol.Prelude.{ℕ, ◌^◌, ◌<◌, ◌≡◌, refl, sym, ap, ◌∙◌, arith}
use npamp_protocol.Prelude.{List, [], ◌∷◌, ◌++◌, replicate, All, drop}
use npamp_protocol.Prelude.Bytes.{IsByte, put_be, get_be, get_be-put_be, put_be-IsByte}
use npamp_protocol.Prelude.Bits.{xor_xor}

xor_octets-xor_octets :
    (ns iv : List ℕ) → All IsByte ns → All IsByte iv → xor_octets (xor_octets ns iv) iv ≡ ns
unfolding xor_octets
xor_octets-xor_octets [] iv h k = refl
xor_octets-xor_octets (n ∷ ns) [] h k = refl
xor_octets-xor_octets (n ∷ ns) (v ∷ iv) h k =
    λ i. xor_xor n v h.0 k.0 i ∷ xor_octets-xor_octets ns iv h.1 k.1 i

counter-IsByte : (seq : ℕ) → All IsByte (replicate 4 0 ++ put_be 8 seq)
counter-IsByte seq = (omega arith, (omega arith, (omega arith, (omega arith, put_be-IsByte 8 seq))))

-- Under one IV of octets, two sequence numbers of 64 bits with the same nonce are the same.
pub derive_nonce-injective :
    (iv : List ℕ) (m n : ℕ)
    → All IsByte iv
    → m < 2 ^ 64
    → n < 2 ^ 64
    → derive_nonce iv m ≡ derive_nonce iv n
    → m ≡ n
unfolding derive_nonce
derive_nonce-injective iv m n octets m_fits n_fits h =
    let counters : replicate 4 0 ++ put_be 8 m ≡ replicate 4 0 ++ put_be 8 n =
      sym (xor_octets-xor_octets (replicate 4 0 ++ put_be 8 m) iv (counter-IsByte m) octets)
      ∙ ap (λ (ns : List ℕ). xor_octets ns iv) h
      ∙ xor_octets-xor_octets (replicate 4 0 ++ put_be 8 n) iv (counter-IsByte n) octets in
    sym (get_be-put_be 8 m m_fits)
    ∙ ap (λ (ns : List ℕ). get_be (drop 4 ns)) counters
    ∙ get_be-put_be 8 n n_fits

-- ===== src/Frame/Crc.antt =====
-- CRC-32C (hash/crc32 with the Castagnoli polynomial), bit by bit.
use Prim.Native.Nat.{bit_xor}
use npamp_protocol.Prelude.{ℕ, zero, suc, ◌/◌, ◌%◌, ◌^◌, ◌<◌, ◌≡◌, refl, arith}
use npamp_protocol.Prelude.{List, [], ◌∷◌, ◌==◌, if◌then◌else◌}

crc_bits : ℕ → ℕ → ℕ
crc_bits zero c = c
crc_bits (suc k) c = crc_bits k (if c % 2 == 1 then bit_xor (c / 2) 0x82f63b78 else c / 2)

crc_update : ℕ → List ℕ → ℕ
unfolding crc_bits
crc_update c [] = c
crc_update c (b ∷ bs) = crc_update (crc_bits 8 (bit_xor c b)) bs

-- crc32.Checksum(data, castagnoli), a uint32.
unfoldable pub checksum : List ℕ → ℕ
unfolding crc_update
checksum bs = bit_xor (crc_update 0xffff_ffff bs) 0xffff_ffff % 2 ^ 32

pub checksum-lt : (bs : List ℕ) → checksum bs < 256 ^ 4
unfolding checksum
checksum-lt bs = omega arith

-- The check value of the CRC catalogue, for "123456789".
checksum_check : checksum (49 ∷ 50 ∷ 51 ∷ 52 ∷ 53 ∷ 54 ∷ 55 ∷ 56 ∷ 57 ∷ []) ≡ 0xe306_9283
unfolding checksum
checksum_check = refl

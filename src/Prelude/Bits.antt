-- ===== src/Prelude/Bits.antt =====
-- Masks and shifts on one byte as arithmetic, by tables checked by evaluation.
use Prim.Native.Nat.{ℕ, zero, suc, ◌+◌, ◌*◌, ◌/◌, ◌%◌, ◌<◌, bit_and, bit_or, bit_xor}
use mathlib.Core.Path.{◌≡◌, refl}
use mathlib.Core.Bool.{Bool, true, false}
use mathlib.Core.Logic.{ite}
use native.Mathlib.Decide.{ℕ_discrete}
use native.Mathlib.Omega.{arith}

module _ (f g : ℕ → ℕ) where
  agree_below : ℕ → Bool
  unfolding ℕ_discrete
  agree_below zero = true
  agree_below (suc n) = ite (ℕ_discrete (f n) (g n)) (agree_below n) false

  agree_below→eq : (n : ℕ) → agree_below n ≡ true → (i : ℕ) → i < n → f i ≡ g i
  unfolding agree_below
  agree_below→eq zero e i h = absurd (omega arith)
  agree_below→eq (suc n) e i h = ground (arith, agree_below→eq n (ground arith) i)

pub and_0x0f : (b : ℕ) → b < 256 → bit_and b 0x0f ≡ b % 16
unfolding agree_below
and_0x0f = agree_below→eq _ _ 256 refl

pub and_0x1f : (b : ℕ) → b < 256 → bit_and b 0x1f ≡ b % 32
unfolding agree_below
and_0x1f = agree_below→eq _ _ 256 refl

-- The high nibble or'ed with the low one is the byte.
or_nibbles_table : (b : ℕ) → b < 256 → bit_or (b / 16 * 16) (b % 16) ≡ b
unfolding agree_below
or_nibbles_table = agree_below→eq _ _ 256 refl

pub or_nibbles : (h l : ℕ) → h < 16 → l < 16 → bit_or (h * 16) l ≡ h * 16 + l
or_nibbles h l p q = ground (arith, or_nibbles_table (h * 16 + l))

or_major_table : (b : ℕ) → b < 256 → bit_or (b / 32 * 32) (b % 32) ≡ b
unfolding agree_below
or_major_table = agree_below→eq _ _ 256 refl

pub or_major : (m a : ℕ) → m < 8 → a < 32 → bit_or (m * 32) a ≡ m * 32 + a
or_major m a p q = ground (arith, or_major_table (m * 32 + a))

-- The fifth octet of a frame: the version nibble 2 over the flags.
pub version_nibble : (fl : ℕ) → fl < 16 → bit_or (2 * 16 % 256) (bit_and fl 0x0f) ≡ 32 + fl
unfolding agree_below
version_nibble = agree_below→eq _ _ 16 refl

pub and_0x09_low : (fl : ℕ) → fl < 16 → bit_and (32 + fl) 0x09 ≡ bit_and fl 0x09
unfolding agree_below
and_0x09_low = agree_below→eq _ _ 16 refl

-- Exclusive or with the same octet twice, by a table of the pairs of octets.
xor_table : (i : ℕ) → i < 65536 → bit_xor (bit_xor (i / 256) (i % 256)) (i % 256) ≡ i / 256
unfolding agree_below
xor_table = agree_below→eq _ _ 65536 refl

pub xor_xor : (n v : ℕ) → n < 256 → v < 256 → bit_xor (bit_xor n v) v ≡ n
xor_xor n v p q = ground (arith, xor_table (n * 256 + v))

-- The high bit of sixteen.
pub and_0x8000 : (t : ℕ) → t < 65536 → bit_and t 0x8000 ≡ t / 0x8000 * 0x8000
unfolding agree_below
and_0x8000 = agree_below→eq _ _ 65536 refl

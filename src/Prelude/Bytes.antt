-- ===== src/Prelude/Bytes.antt =====
-- Bytes and big-endian integers (encoding/binary's BigEndian.PutUintN and UintN).
use Prim.Native.Nat.{ℕ, zero, suc, ◌+◌, ◌-◌, ◌*◌, ◌/◌, ◌%◌, ◌^◌, ◌≤◌, ◌<◌}
use mathlib.Core.Path.{◌≡◌, refl}
use mathlib.Core.List.{List, [], ◌∷◌, ◌++◌, append_assoc, append-nil}
use native.Mathlib.Omega.{arith}
use native.Mathlib.Nat.{add-zero, zero-add, suc-add, add-suc, pow-suc, mul-le-mul_right}
use npamp_protocol.Prelude.Lists.{
  length, All, length-append, All-append, All-take, All-drop, take, drop,
}
use npamp_protocol.Prelude.Lists.{
  take-append-drop, drop-append, take-append, take-append_le, drop-append_le,
}
use npamp_protocol.Prelude.Lists.{
  get_or, get_or-drop, take_one, drop-drop, take-take-drop, length-take, length-drop,
}

abbrev pub IsByte : ℕ → Type 0
IsByte b = b < 256

-- `k` octets of `v`, most significant first.
unfoldable pub put_be : ℕ → ℕ → List ℕ
put_be zero v = []
put_be (suc k) v = put_be k (v / 256) ++ (v % 256 ∷ [])

-- `acc << 8 | b` for each octet; no width is cut, since the callers read at most eight octets.
unfoldable pub get_be_from : ℕ → List ℕ → ℕ
get_be_from acc [] = acc
get_be_from acc (b ∷ bs) = get_be_from (acc * 256 + b) bs

unfoldable pub get_be : List ℕ → ℕ
unfolding get_be_from
get_be bs = get_be_from 0 bs

-- The octets buf[i:j].
abbrev pub slice : List ℕ → ℕ → ℕ → List ℕ
slice buf i j = take (j - i) (drop i buf)

pub length-put_be : (k v : ℕ) → length (put_be k v) ≡ k
unfolding put_be
length-put_be zero v = refl
length-put_be (suc k) v =
    omega (arith, length-append (put_be k (v / 256)) (v % 256 ∷ []), length-put_be k (v / 256))

pub put_be-IsByte : (k v : ℕ) → All IsByte (put_be k v)
unfolding put_be
put_be-IsByte zero v = tt
put_be-IsByte (suc k) v =
    All-append IsByte (put_be k (v / 256)) _ (put_be-IsByte k (v / 256)) (omega arith)

get_be_from-snoc :
    (acc : ℕ) (bs : List ℕ) (b : ℕ)
    → get_be_from acc (bs ++ (b ∷ [])) ≡ get_be_from acc bs * 256 + b
unfolding get_be_from
get_be_from-snoc acc [] b = refl
get_be_from-snoc acc (c ∷ bs) b = get_be_from-snoc (acc * 256 + c) bs b

-- What `put_be` writes in enough octets `get_be` reads back.
pub get_be-put_be : (k v : ℕ) → v < 256 ^ k → get_be (put_be k v) ≡ v
unfolding get_be put_be
get_be-put_be zero v h = omega arith
get_be-put_be (suc k) v h = omega (
  arith,
  get_be_from-snoc 0 (put_be k (v / 256)) (v % 256),
  get_be-put_be k (v / 256) (omega (arith, pow-suc 256 k)),
)

put_be_step :
    (j acc b : ℕ) (bs : List ℕ)
    → IsByte b
    → put_be (suc j) (acc * 256 + b) ++ bs ≡ put_be j acc ++ (b ∷ bs)
unfolding put_be
put_be_step j acc b bs h =
    let quot : (acc * 256 + b) / 256 ≡ acc = omega arith in
    let rem : (acc * 256 + b) % 256 ≡ b = omega arith in
    rw (quot, rem) (append_assoc (put_be j acc) (b ∷ []) bs)

put_be-get_be_from :
    (bs : List ℕ) (j acc : ℕ)
    → All IsByte bs
    → put_be (length bs + j) (get_be_from acc bs) ≡ put_be j acc ++ bs
unfolding get_be_from
put_be-get_be_from [] j acc h = rw (zero-add, append-nil)
put_be-get_be_from (b ∷ bs) j acc h =
    rw (suc-add, ← add-suc, put_be-get_be_from bs (suc j) (acc * 256 + b) h.1)
      (put_be_step j acc b bs h.0)

-- Octets are determined by the number that they spell.
pub put_be-get_be : (bs : List ℕ) → All IsByte bs → put_be (length bs) (get_be bs) ≡ bs
unfolding get_be
put_be-get_be bs h = rw (← add-zero (length bs)) (unfold put_be in put_be-get_be_from bs 0 0 h)

-- Neighbouring slices make one slice.
pub slice-append :
    (buf : List ℕ) (i j k : ℕ) → i ≤ j → j ≤ k → slice buf i j ++ slice buf j k ≡ slice buf i k
slice-append buf i j k p q =
    let from : i + (j - i) ≡ j = omega arith in
    let sum : (j - i) + (k - j) ≡ k - i = omega arith in
    let moved : drop (j - i) (drop i buf) ≡ drop j buf = rw (drop-drop i (j - i) buf, from) in
    rw (← sum, ← moved) (take-take-drop (j - i) (k - j) (drop i buf))

pub length-slice :
    (buf : List ℕ) (i j : ℕ) → i ≤ j → j ≤ length buf → length (slice buf i j) ≡ j - i
length-slice buf i j p q = omega (arith, length-take (j - i) (drop i buf), length-drop i buf)

pub slice-IsByte : (buf : List ℕ) (i j : ℕ) → All IsByte buf → All IsByte (slice buf i j)
slice-IsByte buf i j h = All-take IsByte (j - i) (drop i buf) (All-drop IsByte i buf h)

-- The number at buf[i:j], written back.
pub put_be-slice :
    (buf : List ℕ) (i j : ℕ)
    → All IsByte buf
    → i ≤ j
    → j ≤ length buf
    → put_be (j - i) (get_be (slice buf i j)) ≡ slice buf i j
put_be-slice buf i j h p q =
    rw (length-slice buf i j p q) at (put_be-get_be (slice buf i j) (slice-IsByte buf i j h))

pub slice-get_or :
    (buf : List ℕ) (i : ℕ) → suc i ≤ length buf → slice buf i (suc i) ≡ get_or buf i 0 ∷ []
slice-get_or buf i h =
    let one : suc i - i ≡ 1 = omega arith in
    rw one (rw (take_one (drop i buf) 0 (omega (arith, length-drop i buf)), get_or-drop) refl)

pub get_or-IsByte : (buf : List ℕ) (i : ℕ) → All IsByte buf → get_or buf i 0 < 256
get_or-IsByte [] i h = omega arith
get_or-IsByte (b ∷ bs) zero h = h.0
get_or-IsByte (b ∷ bs) (suc i) h = get_or-IsByte bs i h.1

get_be_from-lt :
    (acc : ℕ) (bs : List ℕ) → All IsByte bs → get_be_from acc bs < (acc + 1) * 256 ^ length bs
unfolding get_be_from
get_be_from-lt acc [] h = omega arith
get_be_from-lt acc (b ∷ bs) h =
    let ih = get_be_from-lt (acc * 256 + b) bs h.1 in
    let scale : (acc * 256 + b + 1) * 256 ^ length bs ≤ (acc * 256 + 256) * 256 ^ length bs =
      mul-le-mul_right (256 ^ length bs) (omega (arith, h.0)) in
    rw (pow-suc 256 (length bs)) (omega (arith, ih, scale))

pub get_be-lt : (bs : List ℕ) → All IsByte bs → get_be bs < 256 ^ length bs
unfolding get_be
get_be-lt bs h = omega (arith, get_be_from-lt 0 bs h)

-- More octets at the end leave a slice as it is.
pub slice-append_le :
    (buf more : List ℕ) (i j : ℕ) → i ≤ j → j ≤ length buf → slice (buf ++ more) i j ≡ slice buf i j
slice-append_le buf more i j p q =
    rw (drop-append_le i buf more (omega arith))
      (take-append_le (j - i) (drop i buf) more (omega (arith, length-drop i buf)))

pub slice-append-drop : (buf : List ℕ) (j : ℕ) → slice buf 0 j ++ drop j buf ≡ buf
slice-append-drop buf j = let e : j - 0 ≡ j = omega arith in rw e (take-append-drop j buf)

-- A slice that is a part of an append.
pub slice_middle :
    (xs ys zs : List ℕ) (i j : ℕ)
    → i ≡ length xs
    → j ≡ i + length ys
    → slice (xs ++ (ys ++ zs)) i j ≡ ys
slice_middle xs ys zs i j p q =
    let e : j - i ≡ length ys = omega arith in
    rw (e, p, drop-append xs (ys ++ zs)) (take-append ys zs)

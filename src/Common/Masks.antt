-- ===== src/Common/Masks.antt =====
-- CPU masks: bit tests, single bits, complements, and the lowest set bit, at a variable bit.
use Prim.Native.Nat.{ℕ, zero, suc, ◌-◌, ◌/◌, ◌%◌, ◌^◌, ◌<◌, bit_and, bit_or}
use mathlib.Core.Path.{◌≡◌, refl}
use mathlib.Core.Bool.{Bool, false, not, ◌&&◌, ◌||◌}
use native.Mathlib.Nat.{pow-suc, one-le-pow}
use native.Mathlib.Omega.{arith}
use scx_imperator.Common.Tests.{◌==◌}
use scx_imperator.Common.Words.{not_u32, not_u64}
use scx_imperator.Common.Bits.{bit_or_step, bit_and_step}

-- Bit `i` of `x`.
unfoldable pub test_bit : ℕ → ℕ → Bool
test_bit x zero = x % 2 == 1
test_bit x (suc i) = test_bit (x / 2) i

pub test_bit-bit_or : (x y i : ℕ) → test_bit (bit_or x y) i ≡ (test_bit x i || test_bit y i)
unfolding test_bit
test_bit-bit_or x y zero = ground (arith, bit_or_step x y)
test_bit-bit_or x y (suc i) =
    let h : bit_or x y / 2 ≡ bit_or (x / 2) (y / 2) = omega (arith, bit_or_step x y) in
    rw h (test_bit-bit_or (x / 2) (y / 2) i)

pub test_bit-bit_and : (x y i : ℕ) → test_bit (bit_and x y) i ≡ (test_bit x i && test_bit y i)
unfolding test_bit
test_bit-bit_and x y zero = ground (arith, bit_and_step x y)
test_bit-bit_and x y (suc i) =
    let h : bit_and x y / 2 ≡ bit_and (x / 2) (y / 2) = omega (arith, bit_and_step x y) in
    rw h (test_bit-bit_and (x / 2) (y / 2) i)

pub test_bit-zero : (i : ℕ) → test_bit 0 i ≡ false
unfolding test_bit
test_bit-zero zero = refl
test_bit-zero (suc i) = test_bit-zero i

pub test_bit-pow : (k i : ℕ) → test_bit (2 ^ k) i ≡ (k == i)
unfolding test_bit
test_bit-pow zero zero = refl
test_bit-pow zero (suc i) = rw (test_bit-zero i) (ground arith)
test_bit-pow (suc k) zero = ground (arith, pow-suc 2 k)
test_bit-pow (suc k) (suc i) =
    let h : 2 ^ suc k / 2 ≡ 2 ^ k = omega (arith, pow-suc 2 k) in
    rw h (ground (arith, test_bit-pow k i))

-- The complement in a word of `w` bits.
test_bit-complement :
    (w x i : ℕ) → x < 2 ^ w → i < w → test_bit (2 ^ w - 1 - x) i ≡ not (test_bit x i)
unfolding test_bit
test_bit-complement zero x i h lt = elim lt [ ]
test_bit-complement (suc w) x zero h lt = ground (arith, pow-suc 2 w, one-le-pow w 2)
test_bit-complement (suc w) x (suc i) h lt =
    let half : (2 ^ suc w - 1 - x) / 2 ≡ 2 ^ w - 1 - x / 2 = omega (arith, pow-suc 2 w) in
    rw half (test_bit-complement w (x / 2) i (omega (arith, pow-suc 2 w)) (omega arith))

pub test_bit-not_u64 : (x i : ℕ) → x < 2 ^ 64 → i < 64 → test_bit (not_u64 x) i ≡ not (test_bit x i)
test_bit-not_u64 x i h lt = test_bit-complement 64 x i h lt

pub pow-lt : (k w : ℕ) → k < w → 2 ^ k < 2 ^ w
pow-lt zero zero h = absurd (omega arith)
pow-lt (suc k) zero h = absurd (omega arith)
pow-lt zero (suc w) h = omega (arith, pow-suc 2 w, one-le-pow w 2)
pow-lt (suc k) (suc w) h = omega (arith, pow-suc 2 w, pow-suc 2 k, pow-lt k w (omega arith))

pub test_bit-not_pow : (k i : ℕ) → k < 64 → i < 64 → test_bit (not_u64 (2 ^ k)) i ≡ not (k == i)
test_bit-not_pow k i hk hi =
    ground (arith, test_bit-not_u64 (2 ^ k) i (pow-lt k 64 hk) hi, test_bit-pow k i)

-- An OR of two words of `w` bits has `w` bits.
pub bit_or-lt : (w x y : ℕ) → x < 2 ^ w → y < 2 ^ w → bit_or x y < 2 ^ w
bit_or-lt zero x y hx hy =
    let hx' : x ≡ 0 = omega arith in let hy' : y ≡ 0 = omega arith in rw (hx', hy') (omega arith)
bit_or-lt (suc w) x y hx hy = omega (
  arith,
  bit_or_step x y,
  pow-suc 2 w,
  bit_or-lt w (x / 2) (y / 2) (omega (arith, pow-suc 2 w)) (omega (arith, pow-suc 2 w)),
)

-- The same in a word of 32 bits.
pub test_bit-not_u32_pow : (k i : ℕ) → k < 32 → i < 32 → test_bit (not_u32 (2 ^ k)) i ≡ not (k == i)
test_bit-not_u32_pow k i hk hi =
    ground (arith, test_bit-complement 32 (2 ^ k) i (pow-lt k 32 hk) hi, test_bit-pow k i)

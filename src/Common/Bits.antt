-- ===== src/Common/Bits.antt =====
-- Laws of `&` and `|` at variables, from the digit recursion that the native operations stand for.
use Prim.Native.Nat.{
  ℕ, zero, suc, ◌+◌, ◌-◌, ◌*◌, ◌/◌, ◌%◌, ◌^◌, ◌≤◌, ◌<◌, min, max, bit_and, bit_or, digits,
}
use Prim.Native.Nat.{bit_and-bitwise, bit_or-bitwise}
use mathlib.Core.Path.{◌≡◌, refl, ap, ◌∙◌}
use mathlib.Core.Logic.{inl, inr}
use scx_imperator.Common.Tests.{ltb, Bool-cases}
use native.Mathlib.Nat.{pow-suc, one-le-pow}
use native.Mathlib.Omega.{arith}

-- The digit recursion with a step more of fuel than it needs, and with any more.
module _ (base : ℕ → ℕ) (join : ℕ → ℕ → ℕ) where
  spare_digit :
      (fuel x y : ℕ) → x ≤ fuel → digits base join (suc fuel) x y ≡ digits base join fuel x y
  spare_digit zero zero y h = refl
  spare_digit zero (suc x) y h = absurd (omega arith)
  spare_digit (suc fuel) zero y h = refl
  spare_digit (suc fuel) (suc x) y h = rw (spare_digit fuel (suc x / 2) (y / 2) (omega arith))

  enough_digits : (fuel x y : ℕ) → x ≤ fuel → digits base join fuel x y ≡ digits base join x x y
  enough_digits zero x y h = let none_left : x ≡ 0 = omega arith in rw none_left refl
  enough_digits (suc fuel) x y h = elim (Bool-cases (ltb fuel x)) [
    | inl all ↦ let exact : x ≡ suc fuel = ground arith in rw exact refl
    | inr some_left ↦
        let room : x ≤ fuel = ground arith in
        spare_digit fuel x y room ∙ enough_digits fuel x y room
  ]

-- The lowest digit apart from the others.
pub bit_or_step : (x y : ℕ) → bit_or x y ≡ bit_or (x / 2) (y / 2) * 2 + max (x % 2) (y % 2)
bit_or_step zero y = simp bit_or-bitwise (omega arith)
bit_or_step (suc x) y =
    let rest = enough_digits (λ low. low) max x (suc x / 2) (y / 2) (omega arith) in
    simp bit_or-bitwise (omega (arith, rest))

pub bit_and_step : (x y : ℕ) → bit_and x y ≡ bit_and (x / 2) (y / 2) * 2 + min (x % 2) (y % 2)
bit_and_step zero y = simp bit_and-bitwise (omega arith)
bit_and_step (suc x) y =
    let rest = enough_digits (λ low. 0) min x (suc x / 2) (y / 2) (omega arith) in
    simp bit_and-bitwise (omega (arith, rest))

-- Induction on halves.
module _ (P : ℕ → Type 0) (start : P 0) (double : (x : ℕ) → P (suc x / 2) → P (suc x)) where
  halves_up_to : (bound x : ℕ) → x ≤ bound → P x
  halves_up_to bound zero h = start
  halves_up_to zero (suc x) h = absurd (omega arith)
  halves_up_to (suc bound) (suc x) h = double x (halves_up_to bound (suc x / 2) (omega arith))

  pub by_halves : (x : ℕ) → P x
  by_halves x = halves_up_to x x (omega arith)

pub bit_and-zero : (x : ℕ) → bit_and x 0 ≡ 0
bit_and-zero = by_halves (λ x. bit_and x 0 ≡ 0) refl (λ x h. omega (arith, bit_and_step (suc x) 0))

pub bit_or-zero : (x : ℕ) → bit_or x 0 ≡ x
bit_or-zero = by_halves (λ x. bit_or x 0 ≡ x) refl (λ x h. omega (arith, bit_or_step (suc x) 0))

pub bit_and-le : (x y : ℕ) → bit_and x y ≤ x
bit_and-le =
    by_halves (λ x. (y : ℕ) → bit_and x y ≤ x) (λ y. simp bit_and-bitwise (omega arith))
      (λ x h y. omega (arith, bit_and_step (suc x) y, h (y / 2)))

pub bit_or-ge : (x y : ℕ) → x ≤ bit_or x y
bit_or-ge =
    by_halves (λ x. (y : ℕ) → x ≤ bit_or x y) (λ y. omega arith)
      (λ x h y. omega (arith, bit_or_step (suc x) y, h (y / 2)))

mul-pow-suc : (q k : ℕ) → q * 2 ^ suc k ≡ 2 * (q * 2 ^ k)
mul-pow-suc q k = omega (arith, ap (λ (t : ℕ). q * t) (pow-suc 2 k))

-- Above bit `k` the operations work on the upper parts; the masks below say what is done under it.
pub bit_or_above :
    (k q r m : ℕ) → r < 2 ^ k → bit_or (q * 2 ^ k + r) (m * 2 ^ k) ≡ bit_or q m * 2 ^ k + r
bit_or_above zero q r m h = ground arith
bit_or_above (suc k) q r m h = ground (
  arith,
  bit_or_step (q * 2 ^ suc k + r) (m * 2 ^ suc k),
  mul-pow-suc q k,
  mul-pow-suc m k,
  mul-pow-suc (bit_or q m) k,
  pow-suc 2 k,
  bit_or_above k q (r / 2) m (omega arith),
)

pub bit_and_keep_low :
    (k q r m : ℕ)
    → r < 2 ^ k
    → bit_and (q * 2 ^ k + r) (m * 2 ^ k + (2 ^ k - 1)) ≡ bit_and q m * 2 ^ k + r
bit_and_keep_low zero q r m h = ground arith
bit_and_keep_low (suc k) q r m h = ground (
  arith,
  bit_and_step (q * 2 ^ suc k + r) (m * 2 ^ suc k + (2 ^ suc k - 1)),
  mul-pow-suc q k,
  mul-pow-suc m k,
  mul-pow-suc (bit_and q m) k,
  pow-suc 2 k,
  bit_and_keep_low k q (r / 2) m (omega arith),
)

pub bit_and_drop_low :
    (k q r m : ℕ) → r < 2 ^ k → bit_and (q * 2 ^ k + r) (m * 2 ^ k) ≡ bit_and q m * 2 ^ k
bit_and_drop_low zero q r m h = ground arith
bit_and_drop_low (suc k) q r m h = ground (
  arith,
  bit_and_step (q * 2 ^ suc k + r) (m * 2 ^ suc k),
  mul-pow-suc q k,
  mul-pow-suc m k,
  mul-pow-suc (bit_and q m) k,
  pow-suc 2 k,
  bit_and_drop_low k q (r / 2) m (omega arith),
)

-- `a & (2 ^ k - 1)` is the remainder by `2 ^ k`.
pub bit_and_low : (k a : ℕ) → bit_and a (2 ^ k - 1) ≡ a % 2 ^ k
bit_and_low k a =
    ground (
      arith,
      one-le-pow k 2,
      bit_and-zero (a / 2 ^ k),
      bit_and_keep_low k (a / 2 ^ k) (a % 2 ^ k) 0,
    )

-- The same three at a number that is not yet split at bit `k`.
pub bit_or_pow : (k p m : ℕ) → bit_or p (m * 2 ^ k) ≡ bit_or (p / 2 ^ k) m * 2 ^ k + p % 2 ^ k
bit_or_pow k p m = ground (arith, one-le-pow k 2, bit_or_above k (p / 2 ^ k) (p % 2 ^ k) m)

pub bit_and_pow : (k p m : ℕ) → bit_and p (m * 2 ^ k) ≡ bit_and (p / 2 ^ k) m * 2 ^ k
bit_and_pow k p m = ground (arith, one-le-pow k 2, bit_and_drop_low k (p / 2 ^ k) (p % 2 ^ k) m)

pub bit_and_keep :
    (k p m : ℕ) → bit_and p (m * 2 ^ k + (2 ^ k - 1)) ≡ bit_and (p / 2 ^ k) m * 2 ^ k + p % 2 ^ k
bit_and_keep k p m = ground (arith, one-le-pow k 2, bit_and_keep_low k (p / 2 ^ k) (p % 2 ^ k) m)

pub bit_or_one : (q : ℕ) → bit_or q 1 ≡ q / 2 * 2 + 1
bit_or_one q = omega (arith, bit_or_step q 1, bit_or-zero (q / 2))

zero-bit_or : (m : ℕ) → bit_or 0 m ≡ m
zero-bit_or m = simp bit_or-bitwise

-- `(q << k) | r` and `r | (q << k)` are sums when `r` fits `k` bits.
pub bit_or_disjoint : (k q r : ℕ) → r < 2 ^ k → bit_or (q * 2 ^ k) r ≡ q * 2 ^ k + r
bit_or_disjoint zero q r h = ground (arith, bit_or-zero q)
bit_or_disjoint (suc k) q r h = ground (
  arith,
  bit_or_step (q * 2 ^ suc k) r,
  mul-pow-suc q k,
  pow-suc 2 k,
  bit_or_disjoint k q (r / 2) (omega arith),
)

pub bit_or_disjoint_left : (k q r : ℕ) → r < 2 ^ k → bit_or r (q * 2 ^ k) ≡ q * 2 ^ k + r
bit_or_disjoint_left k q r h = ground (arith, bit_or_above k 0 r q h, zero-bit_or q)

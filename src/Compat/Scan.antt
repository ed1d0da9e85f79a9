-- ===== src/Compat/Scan.antt =====
-- The bit scans find the lowest set bit of every word but zero.
pub mod Clear
use scx_imperator.Common.{
  ℕ, zero, suc, ◌-◌, ◌*◌, ◌/◌, ◌%◌, ◌^◌, ◌<◌, ◌≡◌, refl, arith, Bool, true, false, ◌&&◌, bit_and,
  bit_and_step, bit_and-zero, test_bit, ◌==◌, if◌then◌else◌, Bool-cases, inl, inr, u32, u64,
}
use native.Mathlib.Nat.{pow-succ', one-le-pow, mod-eq_of_lt}
use scx_imperator.Compat.{
  get_or, de_bruijn_bits, de_bruijn32, lowest_bit, bit_scan_forward_u64, bit_scan_forward_u32,
}

-- The position of the lowest set bit, by looking at the bits in turn.
pub ctz : ℕ → ℕ → ℕ
ctz zero mask = 0
ctz (suc w) mask = if mask % 2 == 1 then 0 else suc (ctz w (mask / 2))

ctz-lt : (w mask : ℕ) → 0 < mask → mask < 2 ^ w → ctz w mask < w
unfolding ctz
ctz-lt zero mask pos fits = absurd (omega arith)
ctz-lt (suc w) mask pos fits = elim (Bool-cases (mask % 2 == 1)) [
  | inl odd ↦ rw odd (omega arith)
  | inr even ↦
      rw even (omega (arith, ctz-lt w (mask / 2) (ground arith) (omega (arith, pow-succ' 2 w))))
]

-- The bit is set, and every lower one is clear.
pub ctz_set : (w mask : ℕ) → 0 < mask → mask < 2 ^ w → test_bit mask (ctz w mask) ≡ true
unfolding ctz test_bit
ctz_set zero mask pos fits = absurd (omega arith)
ctz_set (suc w) mask pos fits = elim (Bool-cases (mask % 2 == 1)) [
  | inl odd ↦ rw odd odd
  | inr even ↦ rw even (ctz_set w (mask / 2) (ground arith) (omega (arith, pow-succ' 2 w)))
]

pub ctz_lower : (w mask i : ℕ) → i < ctz w mask → test_bit mask i ≡ false
unfolding ctz test_bit
ctz_lower zero mask i h = elim h [ ]
ctz_lower (suc w) mask zero h = ground arith
ctz_lower (suc w) mask (suc i) h = ctz_lower w (mask / 2) i (ground arith)

and_complement : (w m : ℕ) → m < 2 ^ w → bit_and m (2 ^ w - 1 - m) ≡ 0
and_complement zero m fits = ground (arith, bit_and-zero m)
and_complement (suc w) m fits = ground (
  arith,
  pow-succ' 2 w,
  one-le-pow w 2,
  bit_and_step m (2 ^ suc w - 1 - m),
  and_complement w (m / 2),
)

-- `mask & -mask` is that bit alone.
and_negation : (w mask : ℕ) → 0 < mask → mask < 2 ^ w → bit_and mask (2 ^ w - mask) ≡ 2 ^ ctz w mask
unfolding ctz
and_negation zero mask pos fits = absurd (omega arith)
and_negation (suc w) mask pos fits = elim (Bool-cases (mask % 2 == 1)) [
  | inl odd ↦ rw odd (
      ground
        (arith, pow-succ' 2 w, bit_and_step mask (2 ^ suc w - mask), and_complement w (mask / 2)))
  | inr even ↦ rw even (
      ground (
        arith,
        pow-succ' 2 w,
        pow-succ' 2 (ctz w (mask / 2)),
        bit_and_step mask (2 ^ suc w - mask),
        and_negation w (mask / 2),
      ))
]

lowest_bit-eq : (w mask : ℕ) → 0 < mask → mask < 2 ^ w → lowest_bit w mask ≡ 2 ^ ctz w mask
unfolding lowest_bit
lowest_bit-eq w mask pos fits =
    let small : (2 ^ w - mask) % 2 ^ w ≡ 2 ^ w - mask = mod-eq_of_lt (omega arith) in
    rw small (and_negation w mask pos fits)

-- A scan finds each of the single bits of a word: checked by evaluation, read off for one bit.
finds_bits : (ℕ → ℕ) → ℕ → Bool
finds_bits look zero = true
finds_bits look (suc width) = (look (2 ^ width) == width) && finds_bits look width

finds_bit :
    (look : ℕ → ℕ) {width bit : ℕ}
    → bit < width
    → finds_bits look width ≡ true
    → look (2 ^ bit) ≡ bit
unfolding finds_bits
finds_bit look {width = zero} within checked = absurd (omega arith)
finds_bit look {width = suc width} {bit = bit} within checked = elim (Bool-cases (bit == width)) [
  | inl top ↦ let e : bit ≡ width = ground arith in rw e (ground arith)
  | inr below ↦ finds_bit look {width = width} {bit = bit} (ground arith) (ground arith)
]

-- What the table gives for the single bit `b`.
look64 : ℕ → ℕ
look64 b = get_or de_bruijn_bits (u64 (b * 0x022FDD63CC95386D) / 2 ^ 58) 0

look32 : ℕ → ℕ
look32 b = get_or de_bruijn32 (u32 (b * 0x077CB531) / 2 ^ 27) 0

table64 : finds_bits look64 64 ≡ true
unfolding finds_bits look64 get_or
table64 = refl

table32 : finds_bits look32 32 ≡ true
unfolding finds_bits look32 get_or
table32 = refl

look64-pow : (k : ℕ) → k < 64 → look64 (2 ^ k) ≡ k
look64-pow k h = finds_bit look64 h table64

look32-pow : (k : ℕ) → k < 32 → look32 (2 ^ k) ≡ k
look32-pow k h = finds_bit look32 h table32

-- The 64-bit scan is the position of the lowest set bit.
pub bit_scan_forward_u64-eq :
    (mask : ℕ) → 0 < mask → mask < 2 ^ 64 → bit_scan_forward_u64 mask ≡ ctz 64 mask
unfolding bit_scan_forward_u64 look64
bit_scan_forward_u64-eq mask pos fits =
    rw (lowest_bit-eq 64 mask pos fits) (look64-pow (ctz 64 mask) (ctz-lt 64 mask pos fits))

pub bit_scan_forward_u32-eq :
    (mask : ℕ) → 0 < mask → mask < 2 ^ 32 → bit_scan_forward_u32 mask ≡ ctz 32 mask
unfolding bit_scan_forward_u32 look32
bit_scan_forward_u32-eq mask pos fits =
    rw (lowest_bit-eq 32 mask pos fits) (look32-pow (ctz 32 mask) (ctz-lt 32 mask pos fits))

-- The De Bruijn scans return the lowest set bit of every word but zero: the bit is set, it lies
-- within the word, and no lower bit is set.
pub bit_scan_forward_lem :
    (mask : ℕ)
    → 0 < mask
    → (mask < 2 ^ 64
        → (test_bit mask (bit_scan_forward_u64 mask) ≡ true)
          × (bit_scan_forward_u64 mask < 64)
          × ((i : ℕ) → i < bit_scan_forward_u64 mask → test_bit mask i ≡ false))
      × (mask < 2 ^ 32
          → (test_bit mask (bit_scan_forward_u32 mask) ≡ true)
            × (bit_scan_forward_u32 mask < 32)
            × ((i : ℕ) → i < bit_scan_forward_u32 mask → test_bit mask i ≡ false))
bit_scan_forward_lem mask pos = (
  λ fits.
      rw (bit_scan_forward_u64-eq mask pos fits)
        (ctz_set 64 mask pos fits, ctz-lt 64 mask pos fits, ctz_lower 64 mask),
  λ fits.
      rw (bit_scan_forward_u32-eq mask pos fits)
        (ctz_set 32 mask pos fits, ctz-lt 32 mask pos fits, ctz_lower 32 mask),
)

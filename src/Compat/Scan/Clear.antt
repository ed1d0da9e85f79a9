-- ===== src/Compat/Scan/Clear.antt =====
-- `mask &= mask - 1`: a loop that scans and clears visits the set bits in rising order.
use scx_imperator.Common.{
  ℕ, zero, suc, ◌+◌, ◌-◌, ◌*◌, ◌/◌, ◌%◌, ◌^◌, ◌≤◌, ◌<◌, ◌≡◌, ◌∙◌, refl, sym, arith, Bool, true,
  false, bit_and, bit_and_step, by_halves, test_bit, ◌==◌, if◌then◌else◌, Bool-cases, inl, inr,
  List, [], ◌∷◌, length, All, subst, ==_iff,
}
use native.Mathlib.Nat.{pow-suc}
use scx_imperator.Compat.Scan.{ctz}

-- The set bits among the lowest `w`, numbered from `base` on.
unfoldable pub bits : ℕ → ℕ → ℕ → List ℕ
bits zero base mask = []
bits (suc w) base mask =
    let rest = bits w (base + 1) (mask / 2) in if mask % 2 == 1 then base ∷ rest else rest

pub bits_none : (w base : ℕ) → bits w base 0 ≡ []
unfolding bits
bits_none zero base = refl
bits_none (suc w) base = bits_none w (base + 1)

bit_and_self : (x : ℕ) → bit_and x x ≡ x
bit_and_self =
    by_halves (λ x. bit_and x x ≡ x) refl (λ x h. omega (arith, bit_and_step (suc x) (suc x)))

clear_odd : (mask : ℕ) → mask % 2 ≡ 1 → bit_and mask (mask - 1) ≡ mask - 1
clear_odd mask odd =
    let e : (mask - 1) / 2 ≡ mask / 2 = omega arith in
    let step = rw e at (bit_and_step mask (mask - 1)) in
    omega (arith, step, bit_and_self (mask / 2))

clear_even :
    (mask : ℕ)
    → mask % 2 ≡ 0
    → 0 < mask
    → bit_and mask (mask - 1) ≡ bit_and (mask / 2) (mask / 2 - 1) * 2
clear_even mask even pos =
    let e : (mask - 1) / 2 ≡ mask / 2 - 1 = omega arith in
    let step = rw e at (bit_and_step mask (mask - 1)) in omega (arith, step)

-- The set bits are the lowest one, and those that are left when it is cleared.
pub bits-clear :
    (w base mask : ℕ)
    → 0 < mask
    → mask < 2 ^ w
    → bits w base mask ≡ (base + ctz w mask) ∷ bits w base (bit_and mask (mask - 1))
unfolding bits ctz
bits-clear zero base mask pos fits = absurd (omega arith)
bits-clear (suc w) base mask pos fits = elim (Bool-cases (mask % 2 == 1)) [
  | inl odd ↦
      let half : (mask - 1) / 2 ≡ mask / 2 = ground arith in
      let low : ((mask - 1) % 2 == 1) ≡ false = ground arith in
      let here : base + 0 ≡ base = omega arith in
      rw (clear_odd mask (ground arith)) (rw (odd, low, half, here) refl)
  | inr even ↦
      let kept = clear_even mask (ground arith) (omega arith) in
      let half : bit_and mask (mask - 1) / 2 ≡ bit_and (mask / 2) (mask / 2 - 1) =
        omega (arith, kept) in
      let low : (bit_and mask (mask - 1) % 2 == 1) ≡ false = ground (arith, kept) in
      let next = bits-clear w (base + 1) (mask / 2) (ground arith) (omega (arith, pow-suc 2 w)) in
      let there : base + 1 + ctz w (mask / 2) ≡ base + suc (ctz w (mask / 2)) = omega arith in
      rw (even, low, half) (next ∙ rw there refl)
]

-- The numbers that satisfy a test, among the `n` from `i` on.
unfoldable pub listed : (ℕ → Bool) → ℕ → ℕ → List ℕ
listed p zero i = []
listed p (suc n) i = let rest = listed p n (i + 1) in if p i then i ∷ rest else rest

pub bits-listed :
    (w base mask : ℕ) (p : ℕ → Bool)
    → ((k : ℕ) → k < w → test_bit mask k ≡ p (base + k))
    → bits w base mask ≡ listed p w base
unfolding bits listed test_bit
bits-listed zero base mask p h = refl
bits-listed (suc w) base mask p h =
    let here : base + 0 ≡ base = omega arith in
    let low : (mask % 2 == 1) ≡ p base = rw here at (h 0 (omega arith)) in
    let later = λ (k : ℕ) (lt : k < w).
      let e : base + suc k ≡ base + 1 + k = omega arith in rw e at (h (suc k) (omega arith)) in
    rw low (rw (bits-listed w (base + 1) (mask / 2) p later) refl)

pub listed-short :
    (p : ℕ → Bool) (n w i : ℕ)
    → n ≤ w
    → ((j : ℕ) → i + n ≤ j → p j ≡ false)
    → listed p w i ≡ listed p n i
unfolding listed
listed-short p zero zero i le none_above = refl
listed-short p zero (suc w) i le none_above =
    let rest = listed-short p zero w (i + 1) (omega arith) (λ j h. none_above j (omega arith)) in
    rw (none_above i (omega arith)) rest
listed-short p (suc n) zero i le none_above = absurd (omega arith)
listed-short p (suc n) (suc w) i le none_above =
    rw (listed-short p n w (i + 1) (omega arith) (λ j h. none_above j (omega arith))) refl

pub listed-length : (p : ℕ → Bool) (n i : ℕ) → length (listed p n i) ≤ n
unfolding listed
listed-length p zero i = omega arith
listed-length p (suc n) i = elim (Bool-cases (p i)) [
  | inl here ↦ rw here (omega (arith, listed-length p n (i + 1)))
  | inr absent ↦ rw absent (omega (arith, listed-length p n (i + 1)))
]

-- The test decides, within the range.
pub listed-All :
    (p : ℕ → Bool) (P : ℕ → Type 0) (n i : ℕ)
    → All P (listed p n i)
    → (j : ℕ) → i ≤ j
    → j < i + n
    → p j ≡ true
    → P j
unfolding listed
listed-All p P zero i all j lo hi h = absurd (omega arith)
listed-All p P (suc n) i all j lo hi h = elim (Bool-cases (p i)) [
  | inl here ↦
      let all' = rw here at all in
      elim (Bool-cases (i == j)) [
        | inl e ↦ subst P ((==_iff i j).0 e) all'.0
        | inr other ↦ listed-All p P n (i + 1) all'.1 j (ground arith) (omega arith) h
      ]
  | inr absent ↦
      let all' = rw absent at all in
      elim (Bool-cases (i == j)) [
        | inl e ↦
            let e' : i ≡ j = (==_iff i j).0 e in let bad : false ≡ true = sym absent ∙ rw e' h in cc
        | inr other ↦ listed-All p P n (i + 1) all' j (ground arith) (omega arith) h
      ]
]

-- What is listed satisfies the test, and lies in the range.
pub listed_holds : (p : ℕ → Bool) (n i : ℕ) → All (λ j. (p j ≡ true) × (j < i + n)) (listed p n i)
unfolding listed
listed_holds p zero i = tt
listed_holds p (suc n) i =
    let shift : i + 1 + n ≡ i + suc n = omega arith in
    let rest = rw shift at (listed_holds p n (i + 1)) in
    elim (Bool-cases (p i)) [
      | inl here ↦ rw here ((here, omega arith), rest)
      | inr absent ↦ rw absent rest
    ]

-- Only the range counts.
pub listed_cong :
    (p q : ℕ → Bool) (n i : ℕ) → ((j : ℕ) → j < i + n → p j ≡ q j) → listed p n i ≡ listed q n i
unfolding listed
listed_cong p q zero i h = refl
listed_cong p q (suc n) i h =
    rw (h i (omega arith), listed_cong p q n (i + 1) (λ j lt. h j (omega arith))) refl

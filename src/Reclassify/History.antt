-- ===== src/Reclassify/History.antt =====
-- The bit history of overruns: what its population count means, and when it demotes.
use scx_imperator.Common.{
  length, ℕ, zero, suc, ◌+◌, ◌*◌, ◌/◌, ◌%◌, ◌^◌, ◌≤◌, ◌<◌, ◌≡◌, refl, arith, Bool, true, false,
  List, [], ◌∷◌, ◌++◌, ◌∙◌, ltb, if◌then◌else◌, bit_or_disjoint,
}
use native.Mathlib.Nat.{pow-succ', one-le-pow}
use scx_imperator.Intf.{cake_tier_idx}
use scx_imperator.Reclassify.{popcount, shift_history, check_overrun, tier_overrun_gate}

abbrev pub bit : Bool → ℕ
bit over = if over then 1 else 0

shift_history-arith : (h : ℕ) (over : Bool) → shift_history h over ≡ (h * 2 + bit over) % 2 ^ 8
unfolding shift_history
shift_history-arith h true = ground (arith, bit_or_disjoint 1 h 1)
shift_history-arith h false = ground (arith, bit_or_disjoint 1 h 0)

half-mod : (x m : ℕ) → 0 < m → x % (2 * m) / 2 ≡ x / 2 % m
half-mod x m h = grind arith

parity-mod : (x m : ℕ) → 0 < m → x % (2 * m) % 2 ≡ x % 2
parity-mod x m h = grind arith

-- Only the low `k` bits count.
popcount-mod : (k j n x : ℕ) → k + j ≡ n → popcount k (x % 2 ^ n) ≡ popcount k x
unfolding popcount
popcount-mod zero j n x e = refl
popcount-mod (suc k) j zero x e = absurd (omega arith)
popcount-mod (suc k) j (suc n) x e =
    let pos : 0 < 2 ^ n = one-le-pow n 2 (omega arith) in
    rw (pow-succ' 2 n, half-mod x (2 ^ n) pos, parity-mod x (2 ^ n) pos)
      (omega (arith, popcount-mod k j n (x / 2) (omega arith)))

-- One more outcome: of the last `k + 1`, it and the `k` before it.
popcount-shift :
    (k j h : ℕ) (over : Bool)
    → k + j ≡ 7
    → popcount (suc k) (shift_history h over) ≡ bit over + popcount k h
unfolding popcount
popcount-shift k j h over e =
    let half : shift_history h over / 2 ≡ h % 2 ^ 7 = ground (arith, shift_history-arith h over) in
    rw half (ground (arith, shift_history-arith h over, popcount-mod k j 7 h e))

-- The history after a list of outcomes, the oldest first.
pub record_outcomes : ℕ → List Bool → ℕ
record_outcomes h [] = h
record_outcomes h (o ∷ os) = record_outcomes (shift_history h o) os

record-append :
    (h : ℕ) (os : List Bool) (o : Bool)
    → record_outcomes h (os ++ o ∷ []) ≡ shift_history (record_outcomes h os) o
unfolding record_outcomes
record-append h [] o = refl
record-append h (p ∷ os) o = record-append (shift_history h p) os o

pub overruns : List Bool → ℕ
overruns [] = 0
overruns (o ∷ os) = bit o + overruns os

count-record :
    (os : List Bool) (k j h : ℕ)
    → length os + k + j ≡ 8
    → popcount (length os + k) (record_outcomes h os) ≡ overruns os + popcount k h
unfolding record_outcomes overruns
count-record [] k j h e = let z : 0 + k ≡ k = omega arith in rw z (omega arith)
count-record (o ∷ os) k j h e =
    let z : suc (length os) + k ≡ length os + suc k = omega arith in
    rw z (
      omega (
        arith,
        count-record os (suc k) j (shift_history h o) (omega arith),
        popcount-shift k (length os + j) h o (omega arith),
      ))

-- The seven outcomes before a bout are all in the register.
popcount-seven :
    (h : ℕ) (os : List Bool) → length os ≡ 7 → popcount 7 (record_outcomes h os) ≡ overruns os
popcount-seven h os e =
    let all : length os + 0 ≡ 7 = omega arith in
    let counted = count-record os 0 1 h (omega arith) in rw all at counted ∙ zero_bits
  where
    zero_bits : overruns os + popcount 0 h ≡ overruns os
    zero_bits = unfold popcount in omega arith

abbrev pub is_over : ℕ → ℕ → Bool
is_over tier rt = ltb (tier_overrun_gate (cake_tier_idx tier)) rt

-- The bit history, for a task of T0 to T2. If at least four of this bout and the seven before it
-- overran, the tier falls by one at least and the history and the stability counter start anew;
-- otherwise the classification stands and the outcome is recorded.
pub check_overrun_window :
    (old rt new stable h : ℕ) (os : List Bool)
    → old < 3
    → length os ≡ 7
    → let v = check_overrun old rt new stable (record_outcomes h os) in
      (4 ≤ overruns (is_over old rt ∷ os)
        → (old < v.tier) × (new ≤ v.tier) × (v.history ≡ 0) × (v.stable ≡ 0))
      × (overruns (is_over old rt ∷ os) < 4
          → (v.tier ≡ new)
            × (v.stable ≡ stable)
            × (v.history ≡ record_outcomes h (os ++ is_over old rt ∷ [])))
unfolding check_overrun overruns
check_overrun_window old rt new stable h os lt e = (
  λ many. ground (
    arith,
    popcount-seven h os e,
    popcount-shift 7 0 (record_outcomes h os) (is_over old rt) refl,
  ),
  λ few. ground (
    arith,
    popcount-seven h os e,
    popcount-shift 7 0 (record_outcomes h os) (is_over old rt) refl,
    record-append h os (is_over old rt),
  ),
)

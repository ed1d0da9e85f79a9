-- ===== src/SelectCpu/Hint/Scan.antt =====
-- The scan of the P-cores of imperator_select_cpu, and the set bits of the candidate mask.
use scx_imperator.Common.{
  ℕ, zero, suc, ◌+◌, ◌-◌, ◌^◌, ◌≤◌, ◌<◌, ◌≡◌, ◌∙◌, refl, arith, Bool, List, [], ◌∷◌, length,
  Bool-cases, inl, inr, bit_and, bit_and-le, test_bit, ◌==◌, ==_iff, if◌then◌else◌,
}
use scx_imperator.Compat.{bit_scan_forward_u64}
use scx_imperator.Compat.Scan.{ctz, bit_scan_forward_u64-eq}
use scx_imperator.Compat.Scan.Clear.{
  bits, bits_none, bits-clear, bits-listed, listed, listed-length,
}
use scx_imperator.Intf.{cake_max_cpus}
use scx_imperator.State.{Rodata}
use scx_imperator.SelectCpu.Hint.{Best, judge, scan, is_set}

module _ (c : Rodata) (allowed : ℕ → Bool) where
  -- The candidates one after the other.
  unfoldable pub visit : List ℕ → Best → Best
  visit [] b = b
  visit (pcpu ∷ pcpus) b =
      let b' = judge c pcpu b in
      let skipped = visit pcpus b in
      let rest = visit pcpus b' in
      if allowed pcpu then (if is_set b'.full then b' else rest) else skipped

  scan_visits :
      (fuel mask : ℕ) (b : Best)
      → mask < 2 ^ 64
      → length (bits 64 0 mask) ≤ fuel
      → scan c allowed fuel mask b ≡ visit (bits 64 0 mask) b
  unfolding scan visit
  scan_visits zero mask b fits enough = elim (Bool-cases (mask == 0)) [
    | inl e ↦ let e' : mask ≡ 0 = (==_iff mask 0).0 e in rw (e', bits_none 64 0) refl
    | inr e ↦
        let enough' = rw (bits-clear 64 0 mask (ground arith) fits) at enough in
        absurd (omega (arith, enough'))
  ]
  scan_visits (suc fuel) mask b fits enough = elim (Bool-cases (mask == 0)) [
    | inl e ↦
        let none_set : bits 64 0 mask ≡ [] =
          let e' : mask ≡ 0 = (==_iff mask 0).0 e in rw e' (bits_none 64 0) in
        rw (e, none_set) refl
    | inr e ↦
        let pos : 0 < mask = ground arith in
        let next = bits-clear 64 0 mask pos fits in
        let found : bit_scan_forward_u64 mask ≡ 0 + ctz 64 mask =
          bit_scan_forward_u64-eq mask pos fits ∙ omega arith in
        let enough' = rw next at enough in
        let rest = λ (b' : Best).
          scan_visits fuel (bit_and mask (mask - 1)) b' (omega (arith, bit_and-le mask (mask - 1)))
            (omega (arith, enough')) in
        rw (e, next, found, rest b, rest (judge c (0 + ctz 64 mask) b)) refl
  ]

  -- All 64 of them.
  pub scan_all :
      (mask : ℕ) (b : Best)
      → mask < 2 ^ 64
      → scan c allowed cake_max_cpus mask b ≡ visit (listed (test_bit mask) 64 0) b
  scan_all mask b fits =
      let shift = λ (k : ℕ) (lt : k < 64).
        let e : 0 + k ≡ k = omega arith in
        let same : test_bit mask k ≡ test_bit mask (0 + k) = rw e refl in same in
      let all : bits 64 0 mask ≡ listed (test_bit mask) 64 0 =
        bits-listed 64 0 mask (test_bit mask) shift in
      let visits =
        scan_visits cake_max_cpus mask b fits (rw all (listed-length (test_bit mask) 64 0)) in
      rw all at visits

-- ===== src/SelectCpu/Hint/First.antt =====
-- Which P-core the scan of imperator_select_cpu hints at.
use scx_imperator.Common.{
  arith, true, false, u64, not_u64, bit_and, pow-lt, test_bit-bit_and, test_bit-zero,
  test_bit-not_pow, ◌==◌, ℕ, ◌^◌, ◌<◌, ◌≡◌, ◌∙◌, refl, ap, Bool, ◌&&◌, Option, none, some, List, [],
  ◌∷◌, Bool-cases, inl, inr, test_bit, if◌then◌else◌,
}
use native.Mathlib.Nat.{mod-eq_of_lt}
use scx_imperator.Intf.{cpu_idx}
use scx_imperator.Compat.Scan.Clear.{listed}
use scx_imperator.State.{Rodata}
use scx_imperator.SelectCpu.Hint.{Best, judge, first_of, full_idle, prefer, pcpu_hint}
use scx_imperator.SelectCpu.Hint.Scan.{visit, scan_all}

unfoldable pub first_such : (ℕ → Bool) → List ℕ → Option ℕ
first_such p [] = none
first_such p (x ∷ xs) = let rest = first_such p xs in if p x then some x else rest

prefer-first_of :
    (half rest : Option ℕ) (x : ℕ) → prefer (first_of half x) rest ≡ prefer half (some x)
prefer-first_of none rest x = refl
prefer-first_of (some y) rest x = refl

module _ (c : Rodata) (allowed : ℕ → Bool) where
  hint_of : Best → Option ℕ
  hint_of b = prefer b.full b.half

  visit_hint :
      (xs : List ℕ) (half : Option ℕ)
      → hint_of (visit c allowed xs (record { full = none; half = half }))
        ≡ prefer
            (first_such (λ x. allowed x && full_idle c x) xs)
            (prefer half (first_such allowed xs))
  unfolding hint_of visit first_such judge
  visit_hint [] none = refl
  visit_hint [] (some h) = refl
  visit_hint (x ∷ xs) half = elim (Bool-cases (allowed x)) [
    | inl yes_x ↦ elim (Bool-cases (full_idle c x)) [
      | inl whole ↦ rw (yes_x, whole) refl
      | inr shared ↦
          rw (yes_x, shared)
            (visit_hint xs (first_of half x)
              ∙ ap (prefer (first_such (λ y. allowed y && full_idle c y) xs))
                  (prefer-first_of half (first_such allowed xs) x))
    ]
    | inr no_x ↦ rw no_x (visit_hint xs half)
  ]

  full_idle_alone :
      (x i : ℕ)
      → x < 64
      → i < 64
      → full_idle c x ≡ true
      → (x == i) ≡ false
      → test_bit (c.core_cpu_mask (c.cpu_core_id (cpu_idx x))) i ≡ false
  unfolding full_idle
  full_idle_alone x i hx hi whole other =
      let cmask = c.core_cpu_mask (c.cpu_core_id (cpu_idx x)) in
      let small : u64 (2 ^ x) ≡ 2 ^ x = mod-eq_of_lt (pow-lt x 64 hx) in
      let empty : bit_and cmask (not_u64 (2 ^ x)) ≡ 0 = ground (arith, rw small at whole) in
      let bit = rw empty at (test_bit-bit_and cmask (not_u64 (2 ^ x)) i) in
      ground (arith, bit, test_bit-zero i, test_bit-not_pow x i hx hi)

  -- For a P-core mask of 64 bits, the hint is the first allowed P-core CPU which shares its core with
  -- no other; without one, the first allowed P-core CPU; and none if no P-core CPU is allowed. A CPU that is
  -- taken for one alone has no other in the mask of its core.
  pub pcpu_hint_lem :
      c.big_cpu_mask < 2 ^ 64
      → let big = listed (test_bit c.big_cpu_mask) 64 0 in
        (pcpu_hint c allowed
          ≡ prefer (first_such (λ x. allowed x && full_idle c x) big) (first_such allowed big))
        × ((x i : ℕ)
            → x < 64
            → i < 64
            → full_idle c x ≡ true
            → (x == i) ≡ false
            → test_bit (c.core_cpu_mask (c.cpu_core_id (cpu_idx x))) i ≡ false)
  unfolding pcpu_hint hint_of
  pcpu_hint_lem fits = (
    rw (scan_all c allowed c.big_cpu_mask (record { full = none; half = none }) fits)
        (visit_hint (listed (test_bit c.big_cpu_mask) 64 0) none),
    full_idle_alone,
  )

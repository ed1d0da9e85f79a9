-- ===== src/Dispatch/Refine.antt =====
-- The loop of imperator_dispatch over the steal mask, and the steal as a whole.
use scx_imperator.Common.{
  ℕ, zero, suc, ◌+◌, ◌-◌, ◌^◌, ◌≤◌, ◌<◌, ◌≡◌, ◌∙◌, refl, arith, Bool, true, false, not, ◌&&◌, [],
  length, Option, none, some, Bool-cases, inl, inr, ltb, ◌==◌, ==_iff, not_u32, u32, bit_and,
  bit_and-le, test_bit, test_bit-bit_and, test_bit-zero, test_bit-not_u32_pow,
}
use scx_imperator.Compat.{bit_scan_forward_u32}
use scx_imperator.Compat.Scan.{ctz, bit_scan_forward_u32-eq}
use scx_imperator.Compat.Scan.Clear.{
  bits, bits_none, bits-clear, bits-listed, listed, listed-short, listed-length, listed_cong,
}
use scx_imperator.Dispatch.{DispatchEnv, Search, Steal, attempt, build, drain, steal}
use scx_imperator.Dispatch.Spec.{try_all, best, steal_order}
use scx_imperator.Dispatch.Scan.{
  build_bit, build_fits, build-merged, merged, merged_cost, best-listed, Of, u32-pow,
}

-- The loop over the steal mask tries the set bits of a mask of 32 bits in rising order, up to the
-- first that delivers, and its bound ends it no earlier if it is at least the number of set bits.
pub drain_tries :
    (env : DispatchEnv) (fuel mask : ℕ) (s : Search)
    → mask < 2 ^ 32
    → length (bits 32 0 mask) ≤ fuel
    → drain env fuel mask s ≡ try_all env (bits 32 0 mask) s
unfolding drain try_all
drain_tries env zero mask s fits enough = elim (Bool-cases (mask == 0)) [
  | inl e ↦ let e' : mask ≡ 0 = (==_iff mask 0).0 e in rw (e', bits_none 32 0) refl
  | inr e ↦
      let enough' = rw (bits-clear 32 0 mask (ground arith) fits) at enough in
      absurd (omega (arith, enough'))
]
drain_tries env (suc fuel) mask s fits enough = elim (Bool-cases (mask == 0)) [
  | inl e ↦
      let none_set : bits 32 0 mask ≡ [] =
        let e' : mask ≡ 0 = (==_iff mask 0).0 e in rw e' (bits_none 32 0) in
      rw (e, none_set) refl
  | inr e ↦
      let pos : 0 < mask = ground arith in
      let next = bits-clear 32 0 mask pos fits in
      let found : bit_scan_forward_u32 mask ≡ 0 + ctz 32 mask =
        bit_scan_forward_u32-eq mask pos fits ∙ omega arith in
      let enough' = rw next at enough in
      let rest =
        drain_tries env fuel (bit_and mask (mask - 1)) (attempt env (0 + ctz 32 mask) s)
          (omega (arith, bit_and-le mask (mask - 1))) (omega (arith, enough')) in
      rw (e, next, found, rest) refl
]

drain-listed :
    (env : DispatchEnv) (nr_llcs mask : ℕ) (p : ℕ → Bool) (s : Search)
    → nr_llcs ≤ 32
    → mask < 2 ^ 32
    → ((k : ℕ) → k < 32 → test_bit mask k ≡ (ltb k nr_llcs && p k))
    → drain env nr_llcs mask s ≡ try_all env (listed p nr_llcs 0) s
drain-listed env nr_llcs mask p s few fits h =
    let within : ℕ → Bool = λ k. ltb k nr_llcs && p k in
    let shift = λ (k : ℕ) (lt : k < 32).
      let e : 0 + k ≡ k = omega arith in
      let goal : test_bit mask k ≡ within (0 + k) = rw e (h k lt) in goal in
    let all : bits 32 0 mask ≡ listed p nr_llcs 0 =
      bits-listed 32 0 mask within shift
      ∙ listed-short within nr_llcs 32 0 few (λ j above. ground arith)
      ∙ listed_cong within p nr_llcs 0 (λ j below. ground arith) in
    let tries = drain_tries env nr_llcs mask s fits (rw all (listed-length p nr_llcs 0)) in
    rw all at tries

module _ (marked : ℕ → Bool) (cost : ℕ → ℕ) (nr_llcs : ℕ) (few : nr_llcs ≤ 32) where
  plan : Steal
  plan = build marked cost nr_llcs 0 (record { mask = 0; cheapest = nr_llcs; min_cost = 0 })

  plan_bit : (k : ℕ) → test_bit plan.mask k ≡ (ltb k nr_llcs && marked k)
  unfolding plan
  plan_bit k = ground (
    arith,
    test_bit-zero k,
    build_bit marked cost nr_llcs 0 (record { mask = 0; cheapest = nr_llcs; min_cost = 0 }) k
        (omega arith),
  )

  plan_fits : plan.mask < 2 ^ 32
  unfolding plan
  plan_fits =
      build_fits marked cost nr_llcs 0 (record { mask = 0; cheapest = nr_llcs; min_cost = 0 })
        (omega arith) (omega arith)

  found : Option ℕ
  found = best cost (listed marked nr_llcs 0)

  plan_found :
      (plan.cheapest ≡ merged marked cost found nr_llcs 0)
      × (plan.min_cost ≡ merged_cost marked cost found 0)
  unfolding plan found
  plan_found =
      build-merged marked cost nr_llcs 0 (record { mask = 0; cheapest = nr_llcs; min_cost = 0 })

  Cheapest : Option ℕ → Type 0
  Cheapest none = plan.cheapest ≡ nr_llcs
  Cheapest (some x) = (plan.cheapest ≡ x) × (plan.min_cost ≡ cost x) × (0 < cost x) × (x < nr_llcs)

  plan-Cheapest : (o : Option ℕ) → found ≡ o → Cheapest o
  unfolding Cheapest merged merged_cost Of found
  plan-Cheapest none e = rw e at (plan_found.0)
  plan-Cheapest (some x) e =
      let h = rw e at plan_found in
      let listed_one = rw e at (best-listed marked cost nr_llcs 0) in
      (h.0, h.1, listed_one.1, omega (arith, listed_one.0.1))

  rest_bit :
      (x k : ℕ)
      → x < nr_llcs
      → k < 32
      → test_bit (bit_and plan.mask (not_u32 (u32 (2 ^ x)))) k
        ≡ (ltb k nr_llcs && (marked k && not (x == k)))
  rest_bit x k lt hk = ground (
    arith,
    u32-pow x (omega arith),
    test_bit-bit_and plan.mask (not_u32 (2 ^ x)) k,
    plan_bit k,
    test_bit-not_u32_pow x k (omega arith) hk,
  )

  steal_tries_by :
      (env : DispatchEnv) (s : Search) (o : Option ℕ)
      → Cheapest o
      → steal env nr_llcs plan s ≡ try_all env (steal_order marked cost nr_llcs o) s
  unfolding steal try_all steal_order Cheapest
  steal_tries_by env s none h =
      let none_better : ltb nr_llcs nr_llcs ≡ false = ground arith in
      rw (h, none_better)
        (drain-listed env nr_llcs plan.mask marked s few plan_fits (λ k lt. plan_bit k))
  steal_tries_by env s (some x) h =
      let guard : (ltb x nr_llcs && ltb 0 (cost x)) ≡ true = ground (arith, h.2, h.3) in
      let rest =
        drain-listed env nr_llcs (bit_and plan.mask (not_u32 (u32 (2 ^ x))))
          (λ i. marked i && not (x == i)) (attempt env x s) few
          (omega (arith, plan_fits, bit_and-le plan.mask (not_u32 (u32 (2 ^ x)))))
          (λ k. rest_bit x k h.3) in
      rw (h.0, h.1, guard, rest) refl

  pub steal_tries :
      (env : DispatchEnv) (s : Search)
      → steal env nr_llcs
          (build marked cost nr_llcs 0 (record { mask = 0; cheapest = nr_llcs; min_cost = 0 }))
          s
        ≡ try_all env (steal_order marked cost nr_llcs (best cost (listed marked nr_llcs 0))) s
  unfolding plan found
  steal_tries env s = steal_tries_by env s found (plan-Cheapest found refl)

-- ===== src/Enqueue/Burst/Grant.antt =====
-- What the burst credit of imperator_enqueue comes to, for a task that enters without any.
use scx_imperator.Common.{ℕ, ◌+◌, ◌*◌, ◌^◌, ◌≤◌, ◌<◌, ◌≡◌, arith, true, false, has}
use Prim.Native.Nat.{min}
use scx_imperator.Intf.{cake_tier_frame, cake_tier_idx}
use scx_imperator.Intf.Fused.{cake_tier_idx-arith}
use scx_imperator.State.{Rodata, Kernel, tier_slice}
use scx_imperator.Enqueue.Burst.{
  EnqState, burst, earn_credit, spend_credit, grant, burst_eligible, tier_burst_cap_kns, new_credit,
  extended_slice,
}

idx_lt : (t : ℕ) → t < 4 → cake_tier_idx t ≡ t
idx_lt t h = omega (arith, cake_tier_idx-arith t)

module _ (k : Kernel) (c : Rodata) (flags : ℕ) (s : EnqState) where
  eligible_lem : s.tier < 4 → 0 < tier_burst_cap_kns c s.tier → burst_eligible c s.tier ≡ true
  unfolding burst_eligible tier_burst_cap_kns
  eligible_lem ht h = ground arith

  earned :
      s.tier < 4
      → s.task.burst_credit ≡ 0
      → has flags k.enq_preempt ≡ true
      → (earn_credit k c flags s).task.burst_credit ≡ grant c s.tier
  unfolding earn_credit grant new_credit
  earned ht empty h = ground (arith, idx_lt s.tier ht, eligible_lem ht)

  -- What the state is after a grant of `g`.
  abbrev pub Granted : ℕ → EnqState → Type 0
  Granted g s' =
      (s'.task.burst_credit ≡ 0)
      × (g ≡ 0 → (s'.slice ≡ s.slice) × (s'.task.next_slice ≡ s.task.next_slice))
      × (0 < g
          → s.slice + g * 2 ^ 10 < 2 ^ 64
          → (s'.slice ≡ min (s.slice + g * 2 ^ 10) (tier_slice c cake_tier_frame))
            × (s'.task.next_slice ≡ s'.slice))

  spent :
      (g : ℕ) (s1 : EnqState)
      → s1.task.burst_credit ≡ g
      → s1.slice ≡ s.slice
      → s1.task.next_slice ≡ s.task.next_slice
      → Granted g (spend_credit c s1)
  unfolding spend_credit extended_slice
  spent g s1 e p q = (ground arith, λ z. ground arith, λ pos fits. ground arith)

  earn_keeps :
      ((earn_credit k c flags s).slice ≡ s.slice)
      × ((earn_credit k c flags s).task.next_slice ≡ s.task.next_slice)
  unfolding earn_credit
  earn_keeps = ground arith

  unearned :
      s.task.burst_credit ≡ 0
      → has flags k.enq_preempt ≡ false
      → (earn_credit k c flags s).task.burst_credit ≡ 0
  unfolding earn_credit
  unearned empty h = ground arith

  -- A preempted task that enters without credit leaves without: its grant, a quarter of the quantum
  -- within the tier's cap, lengthens this slice, and the slice kept for the tick, up to T2's slice.
  -- A task that was not preempted, or whose grant is 0, keeps its slices.
  pub burst_lem :
      s.tier < 4
      → s.task.burst_credit ≡ 0
      → (has flags k.enq_preempt ≡ true → Granted (grant c s.tier) (burst k c flags s))
        × (has flags k.enq_preempt ≡ false → Granted 0 (burst k c flags s))
  unfolding burst
  burst_lem ht empty =
      let keep = earn_keeps in
      (
        λ h. spent (grant c s.tier) (earn_credit k c flags s) (earned ht empty h) keep.0 keep.1,
        λ h. spent 0 (earn_credit k c flags s) (unearned empty h) keep.0 keep.1,
      )

  pub grant_bounds :
      (s.tier ≡ 0 → grant c s.tier ≡ 0)
      × (c.sim_mode ≡ false → s.tier ≡ 3 → grant c s.tier ≡ 0)
      × (2000 * 2 ^ 12 ≤ c.quantum_ns → c.quantum_ns < 2 ^ 28 → s.tier ≡ 1 → grant c s.tier ≡ 2000)
  unfolding grant tier_burst_cap_kns
  grant_bounds = (λ h. ground arith, λ g h. ground arith, λ a b h. ground arith)

  pub grant_sim :
      c.sim_mode ≡ true
      → 2 ^ 12 ≤ c.quantum_ns
      → c.quantum_ns < 2 ^ 28
      → (0 < grant c 3) × (grant c 3 ≤ 1000)
  unfolding grant tier_burst_cap_kns
  grant_sim sim lo hi = ground arith

  pub burst_keeps :
      ((burst k c flags s).task.packed_info ≡ s.task.packed_info)
      × ((burst k c flags s).tier ≡ s.tier)
  unfolding burst spend_credit earn_credit
  burst_keeps = (ground arith, ground arith)

-- ===== src/Enqueue/Burst.antt =====
-- The burst credit of imperator_enqueue: a preempted task earns some, and spends it at once on a
-- longer slice.
pub mod Grant
use scx_imperator.Common.{
  ℕ, ◌+◌, ◌-◌, ◌*◌, ◌/◌, ◌%◌, ◌^◌, ◌≤◌, ◌<◌, ◌≡◌, arith, Bool, true, false, ◌&&◌, ltb, leb, ◌==◌,
  if◌then◌else◌, u16, u64, has, table4,
}
use Prim.Native.Nat.{min}
use scx_imperator.Intf.{cake_tier_idx, cake_tier_interact, cake_tier_frame, cake_tier_bulk}
use scx_imperator.Intf.Fused.{cake_tier_idx-arith}
use scx_imperator.State.{TaskCtx, Stats, Rodata, Kernel, tier_slice, bump}
use scx_imperator.Task.{IsWf}

-- The locals of imperator_enqueue beside the shared state that it changes.
pub record EnqState : Type 0 where
  pub task : TaskCtx
  pub stats : Stats
  pub tier : ℕ
  pub slice : ℕ

-- tier_burst_cap_kns_sim, tier_burst_cap_kns_gaming
pub tier_burst_cap_kns : Rodata → ℕ → ℕ
tier_burst_cap_kns c tier =
    if c.sim_mode then table4 0 2000 4000 1000 tier else table4 0 2000 4000 0 tier

pub burst_eligible : Rodata → ℕ → Bool
burst_eligible c tier =
    leb cake_tier_interact tier && leb tier (if c.sim_mode then cake_tier_bulk else cake_tier_frame)

pub new_credit : Rodata → ℕ → ℕ → ℕ
new_credit c cap credit =
    let new_kns = u16 (credit + u16 (c.quantum_ns / 2 ^ 12)) in
    if ltb new_kns cap then new_kns else cap

unfoldable pub earn_credit : Kernel → Rodata → ℕ → EnqState → EnqState
earn_credit k c enq_flags s =
    let cap = tier_burst_cap_kns c (cake_tier_idx s.tier) in
    if has enq_flags k.enq_preempt && burst_eligible c s.tier && ltb 0 cap
    then record s {
      task = record (s.task) { burst_credit = new_credit c cap s.task.burst_credit };
      stats =
          if c.enable_stats
          then record (s.stats) { nr_preempt_with_credit = bump s.stats.nr_preempt_with_credit }
          else s.stats;
    }
    else s

-- `ext_slice < max_slice ? ext_slice : max_slice`
pub extended_slice : Rodata → ℕ → ℕ → ℕ
extended_slice c slice credit =
    let ext = u64 (slice + credit * 2 ^ 10) in
    let max_slice = tier_slice c cake_tier_frame in if ltb ext max_slice then ext else max_slice

unfoldable pub spend_credit : Rodata → EnqState → EnqState
spend_credit c s =
    let slice' = extended_slice c s.slice s.task.burst_credit in
    if ltb 0 s.task.burst_credit
    then record s {
      slice = slice';
      task = record (s.task) { next_slice = slice'; burst_credit = 0 };
      stats =
          if c.enable_stats
          then record (s.stats) { nr_burst_credit_consumed = bump s.stats.nr_burst_credit_consumed }
          else s.stats;
    }
    else s

unfoldable pub burst : Kernel → Rodata → ℕ → EnqState → EnqState
burst k c enq_flags s = spend_credit c (earn_credit k c enq_flags s)

-- What a preempted task of a tier is granted, in units of 1024 ns.
pub grant : Rodata → ℕ → ℕ
grant c tier = min (u16 (c.quantum_ns / 2 ^ 12)) (tier_burst_cap_kns c tier)

tier_slice_fits : (c : Rodata) (t : ℕ) → tier_slice c t < 2 ^ 64
unfolding tier_slice
tier_slice_fits c t = omega arith

extended_slice_fits : (c : Rodata) (slice credit : ℕ) → extended_slice c slice credit < 2 ^ 64
unfolding extended_slice
extended_slice_fits c slice credit = ground (arith, tier_slice_fits c cake_tier_frame)

cap-lt : (c : Rodata) (t : ℕ) → tier_burst_cap_kns c t < 2 ^ 16
unfolding tier_burst_cap_kns
cap-lt c t = ground arith

earn_credit-IsWf :
    (k : Kernel) (c : Rodata) (f : ℕ) (s : EnqState) → IsWf s.task → IsWf (earn_credit k c f s).task
unfolding earn_credit new_credit
earn_credit-IsWf k c f s wf = ground (arith, cap-lt c (cake_tier_idx s.tier))

spend_credit-IsWf : (c : Rodata) (s : EnqState) → IsWf s.task → IsWf (spend_credit c s).task
unfolding spend_credit
spend_credit-IsWf c s wf = ground (arith, extended_slice_fits c s.slice s.task.burst_credit)

pub burst-IsWf :
    (k : Kernel) (c : Rodata) (f : ℕ) (s : EnqState) → IsWf s.task → IsWf (burst k c f s).task
unfolding burst
burst-IsWf k c f s wf = spend_credit-IsWf c (earn_credit k c f s) (earn_credit-IsWf k c f s wf)

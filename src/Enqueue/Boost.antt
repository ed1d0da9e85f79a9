-- ===== src/Enqueue/Boost.antt =====
-- The tier boosts of imperator_enqueue: the interrupt override and the waker's tier. Both last for
-- one dispatch.
pub mod Policy
use scx_imperator.Common.{
  ℕ, ◌+◌, ◌-◌, ◌*◌, ◌/◌, ◌%◌, ◌^◌, ◌≤◌, ◌<◌, ◌≡◌, arith, Bool, true, false, ◌&&◌, ltb,
  if◌then◌else◌, has, update,
}
use scx_imperator.Intf.{
  cake_tier_critical, cake_tier_interact, cake_tier_max, has_flag, clear_flag, irq_wake,
  mbox_valid_flag, mbox_get_tier,
}
use scx_imperator.Intf.Laws.{clear_flag-lt}
use scx_imperator.State.{TaskCtx, Stats, Rodata, Kernel, bump}
use scx_imperator.Task.{IsWf}
use scx_imperator.Enqueue.Burst.{EnqState}

-- FEATURE 1. `task_packed` is the task's word from here on.
unfoldable pub irq_override : Rodata → EnqState → EnqState
irq_override c s =
    if has_flag irq_wake s.task.packed_info
    then record s {
      task = record (s.task) { packed_info = clear_flag irq_wake s.task.packed_info };
      tier = cake_tier_critical;
      stats =
          if c.enable_stats
          then record (s.stats) { nr_irq_wake_boosts = bump s.stats.nr_irq_wake_boosts }
          else s.stats;
    }
    else s

-- `waker_tier < CAKE_TIER_INTERACT ? CAKE_TIER_INTERACT : waker_tier`
pub promoted : ℕ → ℕ
promoted waker_tier = if ltb waker_tier cake_tier_interact then cake_tier_interact else waker_tier

-- FEATURE 2, by the flags of the mailbox of the waker's CPU.
unfoldable pub inherit_waker : Kernel → Rodata → ℕ → ℕ → EnqState → EnqState
inherit_waker k c enq_flags mbox_flags s =
    let waker_tier = mbox_get_tier mbox_flags in
    if has enq_flags k.enq_wakeup
      && ltb cake_tier_critical s.tier
      && has mbox_flags mbox_valid_flag
      && ltb waker_tier s.tier
      && ltb (promoted waker_tier) s.tier
    then record s {
      tier = promoted waker_tier;
      stats =
          if c.enable_stats
          then record (s.stats) { nr_waker_tier_boosts = bump s.stats.nr_waker_tier_boosts }
          else s.stats;
    }
    else s

unfoldable pub count_dispatch : Kernel → Rodata → ℕ → EnqState → EnqState
count_dispatch k c enq_flags s =
    let flow =
      (if has enq_flags k.enq_wakeup
        then record (s.stats) { nr_new_flow_dispatches = bump s.stats.nr_new_flow_dispatches }
        else record (s.stats) { nr_old_flow_dispatches = bump s.stats.nr_old_flow_dispatches }) in
    let by_tier =
      update s.stats.nr_tier_dispatches s.tier (bump (s.stats.nr_tier_dispatches s.tier)) in
    if c.enable_stats
    then record s {
      stats =
          if ltb s.tier cake_tier_max then record flow { nr_tier_dispatches = by_tier } else flow;
    }
    else s

unfoldable pub boost : Kernel → Rodata → ℕ → ℕ → EnqState → EnqState
boost k c enq_flags mbox_flags s =
    count_dispatch k c enq_flags (inherit_waker k c enq_flags mbox_flags (irq_override c s))

-- ===== src/Enqueue/Ahead.antt =====
-- Two tasks that imperator_enqueue queues at the same time: the order of their tiers.
use scx_imperator.Common.{
  ℕ, zero, suc, ◌+◌, ◌^◌, ◌≤◌, ◌<◌, ◌≡◌, sym, arith, Bool, true, some, has, bit_or,
}
use native.Mathlib.Decide.{dec_le}
use scx_imperator.Intf.{mbox_get_tier, mbox_valid_flag, get_tier, has_flag, irq_wake, cpu_idx}
use scx_imperator.Intf.Fused.{mbox_get_tier-arith}
use scx_imperator.Intf.Laws.{get_tier-lt}
use scx_imperator.State.{TaskCtx, Rodata, World, Kernel}
use scx_imperator.Task.Idle.{IsIdle}
use scx_imperator.Deadline.{budget, tier_deadline}
use scx_imperator.Deadline.Order.{tier_deadline_order}
use scx_imperator.Enqueue.{EnqEnv, imperator_enqueue, advance}
use scx_imperator.Enqueue.Boost.Policy.{policy}
use scx_imperator.Enqueue.Laws.{tier_at}
use scx_imperator.Enqueue.Queued.{imperator_enqueue_calls}
use scx_imperator.Enqueue.Aging.{QueuesAt, queues_at}

policy-lt :
    (irq wakeup valid : Bool) (waker tier : ℕ)
    → waker < 4
    → tier < 4
    → policy irq wakeup valid waker tier < 4
policy-lt irq wakeup valid waker tier hw ht = ground arith

tier_at-lt :
    (k : Kernel) (c : Rodata) (env : EnqEnv) (w : World) (t : TaskCtx) (idle : IsIdle t)
    → tier_at k c env w t idle < 4
tier_at-lt k c env w t idle =
    policy-lt (has_flag irq_wake t.packed_info) (has env.enq_flags k.enq_wakeup)
      (has (w.mega_mailbox (cpu_idx env.cpu)).flags mbox_valid_flag)
      (mbox_get_tier (w.mega_mailbox (cpu_idx env.cpu)).flags) (get_tier t.packed_info)
      (omega (arith, mbox_get_tier-arith (w.mega_mailbox (cpu_idx env.cpu)).flags))
      (get_tier-lt t.packed_info (idle.wf).packed_fits)

-- The budgets grow from each tier to the next.
abbrev pub BudgetsGrow : Rodata → Type 0
BudgetsGrow c = (budget c 0 < budget c 1) × (budget c 1 < budget c 2) × (budget c 2 < budget c 3)

module _ (c : Rodata) (grow : BudgetsGrow c) where
  grows_once : (u : ℕ) → u < 3 → budget c u < budget c (suc u)
  grows_once zero h = omega (arith, grow)
  grows_once (suc zero) h = omega (arith, grow)
  grows_once (suc (suc zero)) h = omega (arith, grow)
  grows_once (suc (suc (suc u))) h = absurd (omega arith)

  budget_mono : (t u : ℕ) → t ≤ u → u < 4 → budget c t ≤ budget c u
  budget_mono t zero le h = let e : t ≡ 0 = omega arith in rw e (omega arith)
  budget_mono t (suc u) le h = elim (dec_le t u) [
    | yes p ↦ omega (arith, budget_mono t u p (omega arith), grows_once u (omega arith))
    | no p ↦ let e : t ≡ suc u = omega arith in rw e (omega arith)
  ]

  -- A higher tier comes first.
  deadline_order :
      (now t u adv_t adv_u : ℕ)
      → now + budget c 3 < 2 ^ 64
      → t < u
      → u < 4
      → tier_deadline c now t adv_t < tier_deadline c now u adv_u
  deadline_order now t zero adv_t adv_u fits less small = absurd (omega arith)
  deadline_order now t (suc u) adv_t adv_u fits less small =
      tier_deadline_order c now t u adv_t adv_u (omega arith) (omega arith)
        (budget_mono t u (omega arith) (omega arith)) (grows_once u (omega arith))
        (omega (arith, fits, budget_mono (suc u) 3 (omega arith) (omega arith)))

-- With budgets that grow from each tier to the next and stay within 64 bits beside the time: of two
-- woken or preempted tasks whose contexts are well formed and without burst credit, and that are
-- queued at the same time, the one whose tier after the boosts is the higher gets the earlier
-- deadline, whatever advances the two have.
pub imperator_enqueue_order :
    (k : Kernel) (c : Rodata) (env env' : EnqEnv) (w w' : World) (p p' : ℕ) (t t' : TaskCtx)
    (idle : IsIdle t) (idle' : IsIdle t')
    → BudgetsGrow c
    → env.now + budget c 3 < 2 ^ 64
    → env.now ≡ env'.now
    → w.tasks p ≡ some t
    → w'.tasks p' ≡ some t'
    → has env.enq_flags (bit_or k.enq_wakeup k.enq_preempt) ≡ true
    → has env'.enq_flags (bit_or k.enq_wakeup k.enq_preempt) ≡ true
    → tier_at k c env w t idle < tier_at k c env' w' t' idle'
    → (v : ℕ) × (v' : ℕ) × QueuesAt p v (imperator_enqueue k c env w p).calls
      × QueuesAt p' v' (imperator_enqueue k c env' w' p').calls
      × v < v'
imperator_enqueue_order k c env env' w w' p p' t t' idle idle' grow fits same here here' queued
      queued' less =
    let a = tier_at k c env w t idle in
    let b = tier_at k c env' w' t' idle' in
    let calls = imperator_enqueue_calls k c env w p t idle here queued in
    let calls' = imperator_enqueue_calls k c env' w' p' t' idle' here' queued' in
    (
      tier_deadline c env.now a (advance c t.packed_info),
      tier_deadline c env'.now b (advance c t'.packed_info),
      rw calls (queues_at _ _ _ _),
      rw calls' (queues_at _ _ _ _),
      rw (sym same) (
          deadline_order c grow env.now a b (advance c t.packed_info) (advance c t'.packed_info)
            fits less (tier_at-lt k c env' w' t' idle')),
    )

-- ===== src/Enqueue/Boost/Policy.antt =====
-- The tier that a task is queued at, after the boosts of imperator_enqueue.
use scx_imperator.Common.{
  ℕ, ◌^◌, ◌<◌, ◌≡◌, ◌∙◌, Bool-cases, inl, inr, refl, arith, Bool, true, false, ◌&&◌, has,
  if◌then◌else◌,
}
use Prim.Native.Nat.{min, max}
use scx_imperator.Intf.{
  get_tier, get_stable, has_flag, clear_flag, irq_wake, flow_new, lock_holder, mbox_valid_flag,
  mbox_get_tier,
}
use scx_imperator.Intf.Laws.{
  clear_flag-lt, get_tier-clear_flag, get_stable-clear_flag, has_flag-clear_flag,
}
use scx_imperator.State.{Rodata, Kernel}
use scx_imperator.Task.{IsWf}
use scx_imperator.Enqueue.Burst.{EnqState}
use scx_imperator.Enqueue.Boost.{irq_override, inherit_waker, promoted, count_dispatch, boost}

-- The tier by the policy: an interrupt's consumer goes to T0; a woken task gets its waker's tier if
-- that is better than its own, but no better than T1; any other task keeps its tier.
abbrev pub policy : (irq wakeup valid : Bool) (waker tier : ℕ) → ℕ
policy irq wakeup valid waker tier =
    if irq then 0 else if wakeup && valid then min tier (max 1 waker) else tier

module _ (k : Kernel) (c : Rodata) (flags mbox : ℕ) (s : EnqState) where
  inherited :
      s.tier < 4
      → (inherit_waker k c flags mbox s).tier
        ≡ policy false
            (has flags k.enq_wakeup)
            (has mbox mbox_valid_flag)
            (mbox_get_tier mbox)
            s.tier
  unfolding inherit_waker promoted
  inherited ht = ground arith

  inherit_keeps :
      ((inherit_waker k c flags mbox s).task ≡ s.task)
      × ((inherit_waker k c flags mbox s).slice ≡ s.slice)
  unfolding inherit_waker
  inherit_keeps = ground arith

  count_keeps :
      ((count_dispatch k c flags s).task ≡ s.task)
      × ((count_dispatch k c flags s).slice ≡ s.slice)
      × ((count_dispatch k c flags s).tier ≡ s.tier)
  unfolding count_dispatch
  count_keeps = ground arith

module _ (c : Rodata) (s : EnqState) where
  irq_tier : (irq_override c s).tier ≡ (if has_flag irq_wake s.task.packed_info then 0 else s.tier)
  unfolding irq_override
  irq_tier = ground arith

  irq_slice : (irq_override c s).slice ≡ s.slice
  unfolding irq_override
  irq_slice = ground arith

  irq_task_fired :
      has_flag irq_wake s.task.packed_info ≡ true
      → (irq_override c s).task
        ≡ record (s.task) { packed_info = clear_flag irq_wake s.task.packed_info }
  unfolding irq_override
  irq_task_fired h = ground arith

  irq_task_quiet : has_flag irq_wake s.task.packed_info ≡ false → (irq_override c s).task ≡ s.task
  unfolding irq_override
  irq_task_quiet h = ground arith

-- The one-shot flag is consumed; the task's own tier, its stability and its other flags stay.
pub record Consumed (before after : ℕ) : Type 0 where
  pub no_irq : has_flag irq_wake after ≡ false
  pub same_tier : get_tier after ≡ get_tier before
  pub same_stable : get_stable after ≡ get_stable before
  pub same_new : has_flag flow_new after ≡ has_flag flow_new before
  pub same_holder : has_flag lock_holder after ≡ has_flag lock_holder before

pub cleared-Consumed : (p : ℕ) → p < 2 ^ 32 → Consumed p (clear_flag irq_wake p)
cleared-Consumed p h = record {
  no_irq = has_flag-clear_flag irq_wake irq_wake p h;
  same_tier = get_tier-clear_flag irq_wake p h;
  same_stable = get_stable-clear_flag irq_wake p h;
  same_new = has_flag-clear_flag irq_wake flow_new p h;
  same_holder = has_flag-clear_flag irq_wake lock_holder p h;
}

pub quiet-Consumed : (p : ℕ) → has_flag irq_wake p ≡ false → Consumed p p
quiet-Consumed p h = record {
  no_irq = h;
  same_tier = refl;
  same_stable = refl;
  same_new = refl;
  same_holder = refl;
}

irq-Consumed :
    (c : Rodata) (s : EnqState)
    → IsWf s.task
    → Consumed s.task.packed_info (irq_override c s).task.packed_info × IsWf (irq_override c s).task
irq-Consumed c s wf = elim (Bool-cases (has_flag irq_wake s.task.packed_info)) [
  | inl h ↦ rw (irq_task_fired c s h) (
    cleared-Consumed s.task.packed_info wf.packed_fits,
    ground (arith, clear_flag-lt irq_wake s.task.packed_info wf.packed_fits),
  )
  | inr h ↦ rw (irq_task_quiet c s h) (quiet-Consumed s.task.packed_info h, wf)
]

-- The boosts put the task at the tier of the policy. They consume the interrupt flag, leave the
-- slice, and change nothing else in the task's word: neither boost outlasts this dispatch.
pub boost_lem :
    (k : Kernel) (c : Rodata) (flags mbox : ℕ) (s : EnqState)
    → IsWf s.task
    → s.tier < 4
    → let s' = boost k c flags mbox s in
      (s'.tier
        ≡ policy
            (has_flag irq_wake s.task.packed_info)
            (has flags k.enq_wakeup)
            (has mbox mbox_valid_flag)
            (mbox_get_tier mbox)
            s.tier)
      × (s'.slice ≡ s.slice)
      × Consumed s.task.packed_info s'.task.packed_info
      × IsWf s'.task
unfolding boost
boost_lem k c flags mbox s wf ht =
    let s1 = irq_override c s in
    let s2 = inherit_waker k c flags mbox s1 in
    let t1 = irq_tier c s in
    let t2 = inherited k c flags mbox s1 (ground arith) in
    let keep = inherit_keeps k c flags mbox s1 in
    let count = count_keeps k c flags mbox s2 in
    let consumed = irq-Consumed c s wf in
    (
      count.2 ∙ ground (arith, t1, t2),
      count.1 ∙ keep.1 ∙ irq_slice c s,
      rw (count.0) (rw keep.0 consumed.0),
      rw (count.0) (rw keep.0 consumed.1),
    )

irq_keeps :
    (c : Rodata) (s : EnqState)
    → ((irq_override c s).task.burst_credit ≡ s.task.burst_credit)
      × ((irq_override c s).task.next_slice ≡ s.task.next_slice)
unfolding irq_override
irq_keeps c s = ground arith

pub boost_keeps :
    (k : Kernel) (c : Rodata) (flags mbox : ℕ) (s : EnqState)
    → let s' = boost k c flags mbox s in
      (s'.task.burst_credit ≡ s.task.burst_credit) × (s'.task.next_slice ≡ s.task.next_slice)
unfolding boost
boost_keeps k c flags mbox s =
    let s1 = irq_override c s in
    rw
      (
        (count_keeps k c flags mbox (inherit_waker k c flags mbox s1)).0,
        (inherit_keeps k c flags mbox s1).0,
      )
      (irq_keeps c s)

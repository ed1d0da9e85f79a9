-- ===== src/Enqueue.antt =====
-- imperator_enqueue of src/bpf/imperator.bpf.c: where a task is queued, with which slice and
-- deadline. The stages of the wakeup and preemption path stand in the children.
pub mod Recovery
pub mod Burst
pub mod Boost
pub mod Kick
pub mod Laws
pub mod Queued
pub mod Marks
pub mod Frame
pub mod Aging
pub mod Ahead
pub mod Counters
use scx_imperator.Common.{
  ℕ, ◌+◌, ◌%◌, ◌^◌, Bool, true, false, not, ◌&&◌, ◌||◌, Option, none, some, List, [], ◌∷◌, bit_or,
  ◌==◌, if◌then◌else◌, u32, u64, has, update,
}
use scx_imperator.Intf.{
  cake_tier_idx, cake_tier_bulk, cake_tier_frame, cake_tier_interact, cpu_idx, llc_idx,
  llc_dsq_base, get_tier, has_flag, flow_new, lock_holder,
}
use scx_imperator.State.{TaskCtx, Rodata, World, Kernel, dsq_insert_vtime, set_task, Outcome}
use scx_imperator.Deadline.{tier_deadline}
use scx_imperator.Enqueue.Recovery.{recover_from_sleep}
use scx_imperator.Enqueue.Burst.{EnqState, burst}
use scx_imperator.Enqueue.Boost.{boost}
use scx_imperator.Enqueue.Kick.{kick_victim}

-- What the kernel tells: the CPU the callback runs on, the time, the task's CPU and flags, and why
-- it is queued.
pub record EnqEnv : Type 0 where
  pub cpu : ℕ
  pub now : ℕ
  pub task_cpu : ℕ
  pub task_flags : ℕ
  pub enq_flags : ℕ

-- llc_mark_nonempty
unfoldable pub llc_mark_nonempty : ℕ → World → World
llc_mark_nonempty llc w =
    if w.llc_nonempty (llc_idx llc) == 0
    then record w { llc_nonempty = update w.llc_nonempty (llc_idx llc) 1 }
    else w

unfoldable pub enq_llc : Rodata → EnqEnv → ℕ
enq_llc c env = llc_idx (c.cpu_llc_id (cpu_idx env.task_cpu))

-- The paths that look at no more than a tier.
pub enqueue_plain : Rodata → EnqEnv → World → ℕ → ℕ → Outcome
enqueue_plain c env w p tier =
    let llc = enq_llc c env in
    record {
      world = llc_mark_nonempty llc w;
      calls =
          dsq_insert_vtime p (llc_dsq_base + llc) c.quantum_ns (tier_deadline c env.now tier 0)
            env.enq_flags
          ∷ [];
    }

-- The new-flow bonus and the lock holder's advance.
unfoldable pub advance : Rodata → ℕ → ℕ
advance c packed =
    let bonus = (λ (b : Bool). if b then c.new_flow_bonus_ns else 0) in
    u64 (bonus (has_flag flow_new packed) + bonus (has_flag lock_holder packed))

-- The stages up to the insertion.
pub stages : Kernel → Rodata → EnqEnv → World → TaskCtx → EnqState
stages k c env w t =
    let cpu = cpu_idx env.cpu in
    let t' = recover_from_sleep env.now (record t { enqueue_time = u32 env.now }) in
    boost k c env.enq_flags (w.mega_mailbox cpu).flags (
      burst k c env.enq_flags (record {
        task = t';
        stats = w.global_stats cpu;
        tier = cake_tier_idx (get_tier t'.packed_info);
        slice = t'.next_slice;
      }))

pub enqueue_ctx : Kernel → Rodata → EnqEnv → World → ℕ → TaskCtx → Outcome
enqueue_ctx k c env w p t =
    let llc = enq_llc c env in
    let s = stages k c env w t in
    let w' = record (set_task w p s.task) {
      global_stats = update w.global_stats (cpu_idx env.cpu) s.stats;
    } in
    let vtime = tier_deadline c env.now s.tier (advance c s.task.packed_info) in
    record {
      world = llc_mark_nonempty llc w';
      calls =
          dsq_insert_vtime p (llc_dsq_base + llc) s.slice vtime env.enq_flags
          ∷ kick_victim k w llc s.tier;
    }

-- The paths, by the task's context.
pub enqueue_by : Kernel → Rodata → EnqEnv → World → ℕ → Option TaskCtx → Outcome
enqueue_by k c env w p none =
    if has env.task_flags k.pf_kthread
    then enqueue_plain c env w p cake_tier_interact
    else if has env.enq_flags (bit_or k.enq_wakeup k.enq_preempt)
    then enqueue_plain c env w p cake_tier_frame
    else enqueue_plain c env w p cake_tier_bulk
enqueue_by k c env w p (some t) =
    if has env.enq_flags (bit_or k.enq_wakeup k.enq_preempt)
    then enqueue_ctx k c env w p t
    else enqueue_plain c env w p (cake_tier_idx (get_tier t.packed_info))

pub imperator_enqueue : Kernel → Rodata → EnqEnv → World → ℕ → Outcome
imperator_enqueue k c env w p = enqueue_by k c env w p (w.tasks p)

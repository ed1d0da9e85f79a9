-- ===== src/Enqueue/Queued.antt =====
-- What imperator_enqueue queues a woken or preempted task with, and the invariant of the tasks.
use scx_imperator.Common.{
  ℕ, ◌+◌, ◌≡◌, ◌∙◌, refl, arith, true, false, Option, some, none, ◌∷◌, has, bit_or, update,
}
use scx_imperator.Intf.{get_tier, llc_dsq_base, cake_tier_idx}
use scx_imperator.State.{TaskCtx, Rodata, World, Kernel, Call, dsq_insert_vtime}
use scx_imperator.Task.Idle.{IsIdle, AllIdle, same-AllIdle, set-AllIdle}
use scx_imperator.Deadline.{tier_deadline}
use scx_imperator.Enqueue.{
  EnqEnv, enq_llc, enqueue_plain, enqueue_ctx, imperator_enqueue, enqueue_by, stages, advance,
}
use scx_imperator.Enqueue.Burst.Grant.{burst_lem}
use scx_imperator.Enqueue.Kick.{kick_victim}
use scx_imperator.Enqueue.Laws.{
  boosted, before, before_tier-lt, recovered_keeps, tier_at, mark_tasks,
}

module _ (k : Kernel) (c : Rodata) (env : EnqEnv) (w : World) (p : ℕ) (t : TaskCtx)
    (idle : IsIdle t) where
  abbrev pub queued_call : ℕ → Call
  queued_call slice =
      dsq_insert_vtime p (llc_dsq_base + enq_llc c env) slice
        (tier_deadline c env.now (tier_at k c env w t idle) (advance c t.packed_info)) env.enq_flags

  ctx_calls :
      (enqueue_ctx k c env w p t).calls
      ≡ queued_call (stages k c env w t).slice
        ∷ kick_victim k w (enq_llc c env) (tier_at k c env w t idle)
  unfolding enqueue_ctx
  ctx_calls = let b = boosted k c env w t idle in rw (b.0, b.4) refl

  wakeup_slice : has env.enq_flags k.enq_preempt ≡ false → (stages k c env w t).slice ≡ t.next_slice
  wakeup_slice h =
      let b = boosted k c env w t idle in
      let keep = recovered_keeps k c env w t idle in
      let r =
        burst_lem k c env.enq_flags (before k c env w t idle) (before_tier-lt k c env w t idle)
          keep.0 in
      b.1 ∙ (((r.1 h).1) refl).0 ∙ keep.2

  -- A task that is woken and not preempted is queued with the slice of its last classification, at
  -- the tier of the boost policy, by the deadline of that tier and the advances of its flags, and
  -- the kick goes by the same tier.
  pub enqueue_woken :
      w.tasks p ≡ some t
      → has env.enq_flags (bit_or k.enq_wakeup k.enq_preempt) ≡ true
      → has env.enq_flags k.enq_preempt ≡ false
      → (imperator_enqueue k c env w p).calls
        ≡ queued_call t.next_slice ∷ kick_victim k w (enq_llc c env) (tier_at k c env w t idle)
  unfolding imperator_enqueue enqueue_by
  enqueue_woken here queued woken = rw here (rw queued (ctx_calls ∙ rw (wakeup_slice woken) refl))

  -- The calls for a task that is woken or preempted.
  pub imperator_enqueue_calls :
      w.tasks p ≡ some t
      → has env.enq_flags (bit_or k.enq_wakeup k.enq_preempt) ≡ true
      → (imperator_enqueue k c env w p).calls
        ≡ queued_call (stages k c env w t).slice
          ∷ kick_victim k w (enq_llc c env) (tier_at k c env w t idle)
  unfolding imperator_enqueue enqueue_by
  imperator_enqueue_calls here queued = rw here (rw queued ctx_calls)

  ctx_tasks :
      (enqueue_ctx k c env w p t).world.tasks ≡ update w.tasks p (some (stages k c env w t).task)
  unfolding enqueue_ctx
  ctx_tasks = mark_tasks (enq_llc c env) _

module _ (k : Kernel) (c : Rodata) (env : EnqEnv) (w : World) (p : ℕ) (all : AllIdle w) where
  plain_keeps : (tier : ℕ) → (enqueue_plain c env w p tier).world.tasks ≡ w.tasks
  unfolding enqueue_plain
  plain_keeps tier = mark_tasks (enq_llc c env) w

  idle_at : (t : TaskCtx) → w.tasks p ≡ some t → IsIdle t
  unfolding AllIdle
  idle_at t here = all p t here

  ctx_idle : (t : TaskCtx) → IsIdle t → IsIdle (stages k c env w t).task
  ctx_idle t idle = let b = boosted k c env w t idle in record { wf = b.3; spent = b.2 }

  plain_AllIdle : (tier : ℕ) → AllIdle (enqueue_plain c env w p tier).world
  plain_AllIdle tier = same-AllIdle w (enqueue_plain c env w p tier).world (plain_keeps tier) all

  ctx_AllIdle : (t : TaskCtx) → IsIdle t → AllIdle (enqueue_ctx k c env w p t).world
  ctx_AllIdle t idle =
      set-AllIdle w (enqueue_ctx k c env w p t).world p (stages k c env w t).task
        (ctx_tasks k c env w p t idle) (ctx_idle t idle) all

  by_AllIdle : (o : Option TaskCtx) → w.tasks p ≡ o → AllIdle (enqueue_by k c env w p o).world
  unfolding enqueue_by
  by_AllIdle none here =
      let t1 = plain_AllIdle 1 in
      let t2 = plain_AllIdle 2 in let t3 = plain_AllIdle 3 in ground arith
  by_AllIdle (some t) here =
      let plain = plain_AllIdle (cake_tier_idx (get_tier t.packed_info)) in
      let full = ctx_AllIdle t (idle_at t here) in ground arith

  -- Queueing a task keeps every context well formed and without burst credit: what a task earns by
  -- being preempted is spent in the same call.
  pub imperator_enqueue-AllIdle : AllIdle (imperator_enqueue k c env w p).world
  unfolding imperator_enqueue
  imperator_enqueue-AllIdle = by_AllIdle (w.tasks p) refl

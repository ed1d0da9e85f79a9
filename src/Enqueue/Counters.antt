-- ===== src/Enqueue/Counters.antt =====
-- The counters of imperator_enqueue for the burst credit.
use scx_imperator.Common.{
  ℕ, ◌≡◌, refl, arith, false, Option, some, none, Bool-cases, inl, inr, has, bit_or,
}
use scx_imperator.Intf.{
  cpu_idx, cake_tier_idx, get_tier, cake_tier_interact, cake_tier_frame, cake_tier_bulk,
}
use scx_imperator.State.{TaskCtx, Rodata, World, Kernel}
use scx_imperator.State.Counters.{
  ReadsZero, AllReadZero, every_cpu, same-AllReadZero, update-AllReadZero,
}
use scx_imperator.Task.Idle.{IsIdle, AllIdle}
use scx_imperator.Enqueue.{
  EnqEnv, enq_llc, llc_mark_nonempty, enqueue_plain, enqueue_ctx, imperator_enqueue, enqueue_by,
  stages,
}
use scx_imperator.Enqueue.Burst.{EnqState, earn_credit, spend_credit, burst}
use scx_imperator.Enqueue.Boost.{irq_override, inherit_waker, count_dispatch, boost}
use scx_imperator.Enqueue.Laws.{before, recovered_keeps}

-- Without a preemption and without credit nothing is earned or spent.
burst_stats :
    (k : Kernel) (c : Rodata) (f : ℕ) (s : EnqState)
    → has f k.enq_preempt ≡ false
    → s.task.burst_credit ≡ 0
    → (burst k c f s).stats ≡ s.stats
unfolding burst earn_credit spend_credit
burst_stats k c f s calm spent = ground arith

boost-ReadsZero :
    (k : Kernel) (c : Rodata) (f mbox : ℕ) (s : EnqState)
    → ReadsZero s.stats
    → ReadsZero (boost k c f mbox s).stats
unfolding boost irq_override inherit_waker count_dispatch
boost-ReadsZero k c f mbox s zero_at = ground arith

mark_stats : (llc : ℕ) (w : World) → (llc_mark_nonempty llc w).global_stats ≡ w.global_stats
unfolding llc_mark_nonempty
mark_stats llc w = ground arith

module _ (k : Kernel) (c : Rodata) (env : EnqEnv) (w : World) (p : ℕ)
    (calm : has env.enq_flags k.enq_preempt ≡ false) (zero_at : AllReadZero w) where
  stages-ReadsZero : (t : TaskCtx) → IsIdle t → ReadsZero (stages k c env w t).stats
  unfolding stages
  stages-ReadsZero t idle =
      let s = before k c env w t idle in
      let same = burst_stats k c env.enq_flags s calm (recovered_keeps k c env w t idle).0 in
      boost-ReadsZero k c env.enq_flags _ _ (rw same (every_cpu w zero_at (cpu_idx env.cpu)))

  plain-AllReadZero : (tier : ℕ) → AllReadZero (enqueue_plain c env w p tier).world
  unfolding enqueue_plain
  plain-AllReadZero tier = same-AllReadZero w _ (mark_stats (enq_llc c env) w) zero_at

  ctx-AllReadZero : (t : TaskCtx) → IsIdle t → AllReadZero (enqueue_ctx k c env w p t).world
  unfolding enqueue_ctx
  ctx-AllReadZero t idle =
      update-AllReadZero w _ (cpu_idx env.cpu) (stages k c env w t).stats
        (mark_stats (enq_llc c env) _) (stages-ReadsZero t idle) zero_at

  by-AllReadZero :
      (o : Option TaskCtx)
      → ((t : TaskCtx) → o ≡ some t → IsIdle t)
      → AllReadZero (enqueue_by k c env w p o).world
  unfolding enqueue_by
  by-AllReadZero none idle = elim (Bool-cases (has env.task_flags k.pf_kthread)) [
    | inl e ↦ rw e (plain-AllReadZero cake_tier_interact)
    | inr e ↦ elim (Bool-cases (has env.enq_flags (bit_or k.enq_wakeup k.enq_preempt))) [
      | inl f ↦ rw (e, f) (plain-AllReadZero cake_tier_frame)
      | inr f ↦ rw (e, f) (plain-AllReadZero cake_tier_bulk)
    ]
  ]
  by-AllReadZero (some t) idle =
      elim (Bool-cases (has env.enq_flags (bit_or k.enq_wakeup k.enq_preempt))) [
        | inl e ↦ rw e (ctx-AllReadZero t (idle t refl))
        | inr e ↦ rw e (plain-AllReadZero (cake_tier_idx (get_tier t.packed_info)))
      ]

  pub imperator_enqueue-AllReadZero : AllIdle w → AllReadZero (imperator_enqueue k c env w p).world
  unfolding imperator_enqueue AllIdle
  imperator_enqueue-AllReadZero all = by-AllReadZero (w.tasks p) (all p)

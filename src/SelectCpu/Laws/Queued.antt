-- ===== src/SelectCpu/Laws/Queued.antt =====
-- imperator_select_cpu on the path on which every CPU is busy, and the two callbacks of a wakeup one after the other.
use scx_imperator.Common.{
  ℕ, ◌+◌, ◌≤◌, ◌≡◌, ◌∙◌, refl, sym, arith, true, false, Option, none, some, [], ◌∷◌, bit_or,
  bit_or-ge, Bool-cases, inl, inr, ◌==◌, ==_iff, has, subst,
}
use scx_imperator.Intf.{has_flag, irq_wake, flow_new, lock_holder, llc_dsq_base}
use scx_imperator.Intf.Laws.{has_flag-set_flag}
use scx_imperator.State.{SameLlcs, TaskCtx, Rodata, World, Kernel, dsq_insert_vtime, inserts_into}
use scx_imperator.Deadline.{tier_deadline}
use scx_imperator.Enqueue.{EnqEnv, enq_llc, advance, imperator_enqueue}
use scx_imperator.Enqueue.Kick.{kick_victim}
use scx_imperator.Task.Idle.{IsIdle, AllIdle}
use scx_imperator.Task.Frame.{OnlyTask}
use scx_imperator.Enqueue.Queued.{enqueue_woken}
use scx_imperator.SelectCpu.{SelEnv, irq_context, direct, steer_to_pcore, imperator_select_cpu}
use scx_imperator.SelectCpu.Laws.{
  stamped_task, stamp_task, stamp_tiers, stamp-none, stamp_other, stamped_flag, stamped-IsWf,
  stamp-SameLlcs,
}
use scx_imperator.SelectCpu.Laws.Direct.{imperator_select_cpu_idle, imperator_select_cpu_new}

-- With no idle CPU the task goes back to its own, nothing is called, and the only change of a
-- context is the stamp of an interrupt's wakeup.
pub imperator_select_cpu_busy :
    (k : Kernel) (c : Rodata) (env : SelEnv) (w : World) (p : ℕ) (t : TaskCtx)
    → w.tasks p ≡ some t
    → (env.dfl_first env.prev_cpu).idle ≡ false
    → let o = imperator_select_cpu k c env w p in
      (o.ret ≡ env.prev_cpu)
      × (o.outcome.calls ≡ [])
      × (o.outcome.world.tasks p ≡ some (stamped_task k env t))
unfolding imperator_select_cpu
imperator_select_cpu_busy k c env w p t here busy =
    rw busy (refl, refl, stamp_task k env w p t here)

-- Another task's context is not touched.
pub imperator_select_cpu_other :
    (k : Kernel) (c : Rodata) (env : SelEnv) (w : World) (p q : ℕ)
    → (p == q) ≡ false
    → (imperator_select_cpu k c env w p).outcome.world.tasks q ≡ w.tasks q
unfolding imperator_select_cpu direct
imperator_select_cpu_other k c env w p q other =
    elim (Bool-cases (env.dfl_first env.prev_cpu).idle) [
      | inl idle ↦ rw (idle, other) (stamp_other k env w p q other)
      | inr busy ↦ rw busy (stamp_other k env w p q other)
    ]

stamped-IsIdle :
    (k : Kernel) (env : SelEnv) (t : TaskCtx) → IsIdle t → IsIdle (stamped_task k env t)
stamped-IsIdle k env t idle = record {
  wf = stamped-IsWf k env t idle.wf;
  spent = let h = idle.spent in ground arith;
}

stamped_advance :
    (k : Kernel) (env : SelEnv) (c : Rodata) (t : TaskCtx)
    → IsIdle t
    → advance c (stamped_task k env t).packed_info ≡ advance c t.packed_info
unfolding advance
stamped_advance k env c t idle = elim (Bool-cases (irq_context k env)) [
  | inl irq ↦
      rw
        (
          irq,
          has_flag-set_flag irq_wake flow_new t.packed_info (idle.wf).packed_fits,
          has_flag-set_flag irq_wake lock_holder t.packed_info (idle.wf).packed_fits,
        )
        refl
  | inr calm ↦ rw calm refl
]

-- A task that an interrupt wakes while every CPU is busy is queued at T0 by the call that follows,
-- whatever its own tier, with its own slice, and the kick goes by T0.
pub select_cpu-enqueue_irq :
    (k : Kernel) (c : Rodata) (env : SelEnv) (enq : EnqEnv) (w : World) (p : ℕ) (t : TaskCtx)
    → IsIdle t
    → w.tasks p ≡ some t
    → (env.dfl_first env.prev_cpu).idle ≡ false
    → irq_context k env ≡ true
    → has enq.enq_flags (bit_or k.enq_wakeup k.enq_preempt) ≡ true
    → has enq.enq_flags k.enq_preempt ≡ false
    → let w' = (imperator_select_cpu k c env w p).outcome.world in
      (imperator_enqueue k c enq w' p).calls
      ≡ dsq_insert_vtime p
          (llc_dsq_base + enq_llc c enq)
          t.next_slice
          (tier_deadline c enq.now 0 (advance c t.packed_info))
          enq.enq_flags
        ∷ kick_victim k w' (enq_llc c enq) 0
select_cpu-enqueue_irq k c env enq w p t idle here busy irq queued woken =
    let w' = (imperator_select_cpu k c env w p).outcome.world in
    let t' = stamped_task k env t in
    let here' = (imperator_select_cpu_busy k c env w p t here busy).2 in
    let flag : has_flag irq_wake t'.packed_info ≡ true =
      rw (stamped_flag k env t idle.wf, irq) refl in
    let same : t'.next_slice ≡ t.next_slice = ground arith in
    let calls = enqueue_woken k c enq w' p t' (stamped-IsIdle k env t idle) here' queued woken in
    rw (flag, same, stamped_advance k env c t idle) at calls

select_cpu_none :
    (k : Kernel) (c : Rodata) (env : SelEnv) (w : World) (p : ℕ)
    → w.tasks p ≡ none
    → (imperator_select_cpu k c env w p).outcome.world.tasks p ≡ none
unfolding imperator_select_cpu
select_cpu_none k c env w p here = elim (Bool-cases (env.dfl_first env.prev_cpu).idle) [
  | inl idle ↦ (imperator_select_cpu_new k c env w p here idle).1
  | inr busy ↦ rw busy (stamp-none k env w p here)
]

-- The task's own context afterwards, by its context before.
own_IsIdle :
    (k : Kernel) (c : Rodata) (env : SelEnv) (w : World) (p : ℕ) (o : Option TaskCtx)
    → w.tasks p ≡ o
    → AllIdle w
    → (u : TaskCtx) → (imperator_select_cpu k c env w p).outcome.world.tasks p ≡ some u
    → IsIdle u
unfolding AllIdle
own_IsIdle k c env w p none here all u h =
    let gone = select_cpu_none k c env w p here in let bad = sym gone ∙ h in absurd (ground arith)
own_IsIdle k c env w p (some t) here all u h = elim (Bool-cases (env.dfl_first env.prev_cpu).idle) [
  | inl idle ↦
      let r = (imperator_select_cpu_idle k c env w p t (all p t here).wf here idle).2 in
      let e : r.task ≡ u = ground (arith, sym r.there ∙ h) in
      subst IsIdle e (record { wf = r.wf; spent = r.same_credit ∙ (all p t here).spent })
  | inr busy ↦
      let r = (imperator_select_cpu_busy k c env w p t here busy).2 in
      let e : stamped_task k env t ≡ u = ground (arith, sym r ∙ h) in
      subst IsIdle e (stamped-IsIdle k env t (all p t here))
]

-- A wakeup keeps every context well formed and without burst credit.
pub imperator_select_cpu-AllIdle :
    (k : Kernel) (c : Rodata) (env : SelEnv) (w : World) (p : ℕ)
    → AllIdle w
    → AllIdle (imperator_select_cpu k c env w p).outcome.world
unfolding AllIdle
imperator_select_cpu-AllIdle k c env w p all q u h = elim (Bool-cases (p == q)) [
  | inl e ↦
      let e' : q ≡ p = sym ((==_iff p q).0 e) in
      own_IsIdle k c env w p (w.tasks p) refl all u (rw e' at h)
  | inr other ↦ all q u (sym (imperator_select_cpu_other k c env w p q other) ∙ h)
]

-- No flag and no mask of an LLC changes.
pub imperator_select_cpu-SameLlcs :
    (k : Kernel) (c : Rodata) (env : SelEnv) (w : World) (p : ℕ)
    → SameLlcs w (imperator_select_cpu k c env w p).outcome.world
unfolding imperator_select_cpu direct
imperator_select_cpu-SameLlcs k c env w p =
    let r = stamp-SameLlcs k env w p in
    elim (Bool-cases (env.dfl_first env.prev_cpu).idle) [
      | inl idle ↦ rw idle (record { same_flags = r.same_flags; same_masks = r.same_masks })
      | inr busy ↦ rw busy (record { same_flags = r.same_flags; same_masks = r.same_masks })
    ]

-- What it inserts goes to a CPU's local queue.
pub imperator_select_cpu_into :
    (k : Kernel) (c : Rodata) (env : SelEnv) (w : World) (p dsq : ℕ)
    → inserts_into dsq (imperator_select_cpu k c env w p).outcome.calls ≡ true
    → k.dsq_local_on ≤ dsq
unfolding imperator_select_cpu direct inserts_into
imperator_select_cpu_into k c env w p dsq h = elim (Bool-cases (env.dfl_first env.prev_cpu).idle) [
  | inl idle ↦
      let here = rw idle at h in
      ground
        (arith, bit_or-ge k.dsq_local_on (steer_to_pcore c env (env.dfl_first env.prev_cpu).cpu))
  | inr busy ↦ let bad = rw busy at h in cc
]

pub imperator_select_cpu-OnlyTask :
    (k : Kernel) (c : Rodata) (env : SelEnv) (w : World) (p : ℕ)
    → OnlyTask p w (imperator_select_cpu k c env w p).outcome.world
unfolding imperator_select_cpu direct
imperator_select_cpu-OnlyTask k c env w p = record {
  same_tiers = elim (Bool-cases (env.dfl_first env.prev_cpu).idle) [
    | inl idle ↦ rw idle (stamp_tiers k env w p)
    | inr busy ↦ rw busy (stamp_tiers k env w p)
  ];
  others = imperator_select_cpu_other k c env w p;
}

-- ===== src/Tick/Onward.antt =====
-- The tasks over imperator_tick: each goes on in its tier, and keeps the time that it has.
use scx_imperator.Common.{
  ℕ, ◌≡◌, ◌≢◌, refl, sym, ap, arith, Option, some, none, u32, sub_u32, subst, [],
}
use scx_imperator.Intf.{cpu_idx, get_tier}
use scx_imperator.State.{TaskCtx, Rodata, World, Kernel}
use scx_imperator.Task.Frame.{RunsOn, AllRunOn, set-AllRunOn, same-AllRunOn}
use scx_imperator.Tick.{
  Env, TickState, tick_stamped, tick_ctx, starved, preempt_starved, skip_holder, phase2, expire,
  publish_tier, grow, decay, imperator_tick, write_back,
}
use scx_imperator.Tick.Contexts.{follow_task, ticked, tick_none, tick_some}

-- The words that a tick leaves alone in the context of a task that has its time.
record Same (t t' : TaskCtx) : Type 0 where
  packed : t'.packed_info ≡ t.packed_info
  stamp : t.last_run_at ≢ 0 → t'.last_run_at ≡ t.last_run_at

module _ (k : Kernel) (c : Rodata) (env : Env) (cpu : ℕ) (s : TickState) where
  phase2-Same : (tier runtime : ℕ) → Same s.task (phase2 k c env cpu tier runtime s).state.task
  unfolding phase2 starved preempt_starved skip_holder publish_tier grow decay
  phase2-Same tier runtime = ground arith

  stamped-Same : Same s.task (tick_stamped k c env cpu s).task
  unfolding tick_stamped expire publish_tier
  stamped-Same =
      let tier = get_tier s.task.packed_info in
      let runtime = sub_u32 (u32 env.now) s.task.last_run_at in
      let f = phase2 k c env cpu tier runtime s in
      let followed =
        subst (Same s.task) (sym (follow_task k c env cpu tier f)) (phase2-Same tier runtime) in
      ground arith

  tick_ctx-Same : Same s.task (tick_ctx k c env cpu s).task
  unfolding tick_ctx
  tick_ctx-Same = let st = stamped-Same in ground arith

Same-RunsOn : (t t' : TaskCtx) → Same t t' → RunsOn (some t) (some t')
Same-RunsOn t t' s = record {
  same_tier = ap (λ (n : ℕ). some (get_tier n)) s.packed;
  stays_stamped = λ h. let e = s.stamp (ground arith) in ground arith;
}

imperator_tick_tiers :
    (k : Kernel) (c : Rodata) (env : Env) (p : ℕ) (w : World)
    → (imperator_tick k c env p w).world.tier_cpu_mask ≡ w.tier_cpu_mask
unfolding imperator_tick write_back
imperator_tick_tiers k c env p w = ground arith

by_AllRunOn :
    (k : Kernel) (c : Rodata) (env : Env) (p : ℕ) (w : World) (o : Option TaskCtx)
    → w.tasks p ≡ o
    → AllRunOn w (imperator_tick k c env p w).world
by_AllRunOn k c env p w none here =
    same-AllRunOn w (imperator_tick k c env p w).world (imperator_tick_tiers k c env p w)
      (tick_none k c env p w here)
by_AllRunOn k c env p w (some t) here =
    set-AllRunOn w (imperator_tick k c env p w).world p (ticked k c env w t).task
      (imperator_tick_tiers k c env p w) (tick_some k c env p w t here)
      (rw here (
        Same-RunsOn t (ticked k c env w t).task (
          tick_ctx-Same k c env (cpu_idx env.cpu) (record {
            task = t;
            mbox = w.mega_mailbox (cpu_idx env.cpu);
            stats = w.global_stats (cpu_idx env.cpu);
            calls = [];
          }))))

pub imperator_tick-AllRunOn :
    (k : Kernel) (c : Rodata) (env : Env) (p : ℕ) (w : World)
    → AllRunOn w (imperator_tick k c env p w).world
imperator_tick-AllRunOn k c env p w = by_AllRunOn k c env p w (w.tasks p) refl

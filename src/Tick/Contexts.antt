-- ===== src/Tick/Contexts.antt =====
-- The contexts over imperator_tick.
use scx_imperator.Common.{
  ℕ, ◌≡◌, refl, sym, arith, Option, some, none, [], u32, sub_u32, update, subst,
}
use scx_imperator.Intf.{cpu_idx, get_tier}
use scx_imperator.State.{SameLlcs, TaskCtx, Rodata, World, Kernel}
use scx_imperator.Task.Idle.{IsIdle, AllIdle, same-AllIdle, set-AllIdle}
use scx_imperator.Tick.{
  Env, TickState, Flow, follow, tick_stamped, tick_ctx, starved, preempt_starved, skip_holder,
  phase2, expire, publish_tier, grow, decay, imperator_tick, write_back,
}
use scx_imperator.Tick.Handler.{dvfs-Publication, dvfs_max-Publication}

module _ (k : Kernel) (c : Rodata) (env : Env) (cpu tier : ℕ) where
  pub follow_task : (f : Flow) → (follow k c env cpu tier f).task ≡ f.state.task
  unfolding follow
  follow_task f = ground (
    arith,
    (dvfs-Publication k c env cpu tier f.state).task,
    (dvfs_max-Publication k c env cpu tier f.state).task,
  )

  phase2-IsIdle :
      (runtime : ℕ) (s : TickState)
      → IsIdle s.task
      → IsIdle (phase2 k c env cpu tier runtime s).state.task
  unfolding phase2 starved preempt_starved skip_holder publish_tier grow decay
  phase2-IsIdle runtime s idle = let wf = idle.wf in let spent = idle.spent in ground arith

module _ (k : Kernel) (c : Rodata) (env : Env) (cpu : ℕ) (s : TickState)
    (idle : IsIdle s.task) where
  stamped-IsIdle : IsIdle (tick_stamped k c env cpu s).task
  unfolding tick_stamped expire publish_tier
  stamped-IsIdle =
      let tier = get_tier s.task.packed_info in
      let runtime = sub_u32 (u32 env.now) s.task.last_run_at in
      let f = phase2 k c env cpu tier runtime s in
      let followed =
        subst IsIdle (sym (follow_task k c env cpu tier f))
          (phase2-IsIdle k c env cpu tier runtime s idle) in
      ground arith

  tick_ctx-IsIdle : IsIdle (tick_ctx k c env cpu s).task
  unfolding tick_ctx
  tick_ctx-IsIdle =
      let wf = idle.wf in let spent = idle.spent in let st = stamped-IsIdle in ground arith

pub tick_none :
    (k : Kernel) (c : Rodata) (env : Env) (p : ℕ) (w : World)
    → w.tasks p ≡ none
    → (imperator_tick k c env p w).world.tasks ≡ w.tasks
unfolding imperator_tick
tick_none k c env p w here = rw (imperator_tick, here) refl

-- The tick of a task that has a context.
abbrev pub ticked : Kernel → Rodata → Env → World → TaskCtx → TickState
ticked k c env w t =
    let cpu = cpu_idx env.cpu in
    tick_ctx k c env cpu
      (record { task = t; mbox = w.mega_mailbox cpu; stats = w.global_stats cpu; calls = [] })

pub tick_some :
    (k : Kernel) (c : Rodata) (env : Env) (p : ℕ) (w : World) (t : TaskCtx)
    → w.tasks p ≡ some t
    → (imperator_tick k c env p w).world.tasks ≡ update w.tasks p (some (ticked k c env w t).task)
unfolding imperator_tick write_back
tick_some k c env p w t here = rw (imperator_tick, here) refl

by_AllIdle :
    (k : Kernel) (c : Rodata) (env : Env) (p : ℕ) (w : World) (o : Option TaskCtx)
    → w.tasks p ≡ o
    → ((t : TaskCtx) → o ≡ some t → IsIdle t)
    → AllIdle w
    → AllIdle (imperator_tick k c env p w).world
by_AllIdle k c env p w none here idle all =
    same-AllIdle w (imperator_tick k c env p w).world (tick_none k c env p w here) all
by_AllIdle k c env p w (some t) here idle all =
    set-AllIdle w (imperator_tick k c env p w).world p (ticked k c env w t).task
      (tick_some k c env p w t here)
      (tick_ctx-IsIdle k c env (cpu_idx env.cpu)
        (record {
          task = t;
          mbox = w.mega_mailbox (cpu_idx env.cpu);
          stats = w.global_stats (cpu_idx env.cpu);
          calls = [];
        })
        (idle t refl))
      all

pub imperator_tick-AllIdle :
    (k : Kernel) (c : Rodata) (env : Env) (p : ℕ) (w : World)
    → AllIdle w
    → AllIdle (imperator_tick k c env p w).world
unfolding AllIdle
imperator_tick-AllIdle k c env p w all = by_AllIdle k c env p w (w.tasks p) refl (all p) all

-- No flag and no mask of an LLC changes.
pub imperator_tick-SameLlcs :
    (k : Kernel) (c : Rodata) (env : Env) (p : ℕ) (w : World)
    → SameLlcs w (imperator_tick k c env p w).world
unfolding imperator_tick write_back
imperator_tick-SameLlcs k c env p w = ground arith

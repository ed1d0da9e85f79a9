-- ===== src/Tick/Counters.antt =====
-- The counters of imperator_tick for starvation.
use scx_imperator.Common.{ℕ, ◌≡◌, refl, Option, some, none, []}
use scx_imperator.Intf.{cpu_idx}
use scx_imperator.State.{TaskCtx, Rodata, World, Kernel}
use scx_imperator.State.Counters.{AllReadZero, every_cpu, ReadsZero, update-AllReadZero}
use scx_imperator.Tick.{Env, write_back, imperator_tick}
use scx_imperator.Tick.Contexts.{ticked}
use scx_imperator.Tick.Unreached.{IsWithin, WaitsWhere, tick_starvation_unreached}

module _ (k : Kernel) (c : Rodata) (env : Env) (p : ℕ) (w : World) (zero_at : AllReadZero w) where
  ticked-ReadsZero :
      (t : TaskCtx)
      → IsWithin c t
      → WaitsWhere k c env (cpu_idx env.cpu)
      → ReadsZero (ticked k c env w t).stats
  ticked-ReadsZero t within waits =
      let cpu = cpu_idx env.cpu in
      let same =
        (tick_starvation_unreached k c env cpu
          (record { task = t; mbox = w.mega_mailbox cpu; stats = w.global_stats cpu; calls = [] })
          within waits).0.stats in
      rw same (every_cpu w zero_at cpu)

  by-AllReadZero :
      (o : Option TaskCtx)
      → w.tasks p ≡ o
      → ((t : TaskCtx) → o ≡ some t → IsWithin c t)
      → WaitsWhere k c env (cpu_idx env.cpu)
      → AllReadZero (imperator_tick k c env p w).world
  unfolding imperator_tick write_back
  by-AllReadZero none here within waits = rw (imperator_tick, here) zero_at
  by-AllReadZero (some t) here within waits =
      update-AllReadZero w _ (cpu_idx env.cpu) (ticked k c env w t).stats
        (rw (imperator_tick, here) refl) (ticked-ReadsZero t (within t refl) waits) zero_at

  pub imperator_tick-AllReadZero :
      ((t : TaskCtx) → w.tasks p ≡ some t → IsWithin c t)
      → WaitsWhere k c env (cpu_idx env.cpu)
      → AllReadZero (imperator_tick k c env p w).world
  imperator_tick-AllReadZero = by-AllReadZero (w.tasks p) refl

-- ===== src/System/Counters.antt =====
-- The counters of the starvation check and of the burst credit in a run of the scheduler.
use scx_imperator.Common.{◌^◌, ◌<◌, ◌≡◌, false, some, has}
use scx_imperator.Intf.{cpu_idx}
use scx_imperator.State.{TaskCtx, Rodata, Kernel}
use scx_imperator.State.Counters.{AllReadZero, same-AllReadZero}
use scx_imperator.Task.Alloc.Contexts.{imperator_enable_stats}
use scx_imperator.Task.InitTask.Contexts.{imperator_init_task_stats}
use scx_imperator.Tick.Unreached.{IsWithin, WaitsWhere}
use scx_imperator.Tick.Counters.{imperator_tick-AllReadZero}
use scx_imperator.Enqueue.Counters.{imperator_enqueue-AllReadZero}
use scx_imperator.Lock.Onward.{on_current_stats}
use scx_imperator.Switch.Counters.{imperator_running-AllReadZero, imperator_stopping_stats}
use scx_imperator.Init.Laws.{imperator_init_stats}
use scx_imperator.Dispatch.Tried.{imperator_dispatch_stats}
use scx_imperator.SelectCpu.Counters.{imperator_select_cpu-AllReadZero}
use scx_imperator.System.{
  Machine, Step, init_task, enable, select_cpu, enqueue, dispatch, leave, running, tick, stopping,
  probe, Reaches, started, then_step,
}
use scx_imperator.System.Contexts.{Reaches-AllIdle}

-- No enqueue is told of a preemption. A tick finds its task, if it has a context, with a slice no
-- longer than the starvation threshold of its tier, and more than one task on the run queue only
-- while one waits in the queue of the LLC or in the local queue of the CPU.
unfoldable pub IsUsual : {k : Kernel} {c : Rodata} {m m' : Machine} → Step k c m m' → Type 0
IsUsual (init_task fork prio p parent) = Unit {0}
IsUsual (enable storage prio p) = Unit {0}
IsUsual (select_cpu env p queued fills) = Unit {0}
IsUsual {k = k} (enqueue env p queued fills) = has env.enq_flags k.enq_preempt ≡ false
IsUsual (dispatch env honest) = Unit {0}
IsUsual (leave queued less) = Unit {0}
IsUsual (running cpu now p) = Unit {0}
IsUsual {k = k} {c = c} {m = m} (tick env p) =
    ((t : TaskCtx) → m.world.tasks p ≡ some t → IsWithin c t) × WaitsWhere k c env (cpu_idx env.cpu)
IsUsual (stopping runnable cpu now now' p) = Unit {0}
IsUsual (probe current is) = Unit {0}

-- A run of such steps, from counters that are 0.
unfoldable pub AllUsual : {k : Kernel} {c : Rodata} {m : Machine} → Reaches k c m → Type 0
AllUsual (started {m = m} create clear ok) = AllReadZero m.world
AllUsual (then_step before step) = IsUsual step × AllUsual before

module _ (k : Kernel) (c : Rodata) (fits : c.quantum_ns < 2 ^ 64) where
  Step-AllReadZero :
      {m m' : Machine} (before : Reaches k c m) (step : Step k c m m')
      → IsUsual step
      → AllReadZero m.world
      → AllReadZero m'.world
  unfolding IsUsual
  Step-AllReadZero {m = m} before (init_task fork prio p parent) is =
      same-AllReadZero m.world _ (imperator_init_task_stats c fork prio p parent m.world)
  Step-AllReadZero {m = m} before (enable storage prio p) is =
      same-AllReadZero m.world _ (imperator_enable_stats c storage prio p m.world)
  Step-AllReadZero {m = m} before (select_cpu env p queued fills) is =
      imperator_select_cpu-AllReadZero k c env m.world p
  Step-AllReadZero {m = m} before (enqueue env p queued fills) is = λ zero_at.
      imperator_enqueue-AllReadZero k c env m.world p is zero_at (Reaches-AllIdle k c fits before)
  Step-AllReadZero {m = m} before (dispatch env honest) is =
      same-AllReadZero m.world _ (imperator_dispatch_stats c env m.world)
  Step-AllReadZero {m = m} before (leave queued less) is = λ zero_at. zero_at
  Step-AllReadZero {m = m} before (running cpu now p) is =
      imperator_running-AllReadZero c cpu now p m.world
  Step-AllReadZero {m = m} before (tick env p) is =
      λ zero_at. imperator_tick-AllReadZero k c env p m.world zero_at is.0 is.1
  Step-AllReadZero {m = m} before (stopping runnable cpu now now' p) is =
      same-AllReadZero m.world _ (imperator_stopping_stats c runnable cpu now now' p m.world)
  Step-AllReadZero {m = m} before (probe {f = f} current is_probe) is =
      same-AllReadZero m.world _ (on_current_stats f current m.world)

  -- With a base quantum of 64 bits, in a run of whole callbacks and probes that starts with the four
  -- counters at 0, in which no task is queued with the flag of a preemption, and every tick finds a
  -- task whose slice is no longer than the starvation threshold of its tier, or one without a context,
  -- and more than one task on the run queue only while one waits in the queue of the LLC or in the
  -- local queue of the CPU: at every point and every CPU, the counters of starvation preemptions, of
  -- skips of lock holders, and of burst credit that is earned and that is consumed are 0.
  pub Reaches-AllReadZero : {m : Machine} (run : Reaches k c m) → AllUsual run → AllReadZero m.world
  unfolding AllUsual
  Reaches-AllReadZero (started {m = m} create clear ok) zero_at =
      same-AllReadZero m.world _ (imperator_init_stats c create m.world) zero_at
  Reaches-AllReadZero (then_step before step) (is, usual) =
      Step-AllReadZero before step is (Reaches-AllReadZero before usual)

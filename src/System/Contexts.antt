-- ===== src/System/Contexts.antt =====
-- The task contexts in a run of the scheduler.
use scx_imperator.Common.{◌^◌, ◌<◌, ◌∙◌, sym, arith}
use scx_imperator.State.{Rodata, Kernel}
use scx_imperator.Task.Idle.{AllIdle, same-AllIdle}
use scx_imperator.Task.Alloc.Contexts.{imperator_enable-AllIdle}
use scx_imperator.Task.InitTask.Contexts.{imperator_init_task-AllIdle}
use scx_imperator.Tick.Contexts.{imperator_tick-AllIdle}
use scx_imperator.Enqueue.Queued.{imperator_enqueue-AllIdle}
use scx_imperator.Lock.Contexts.{on_current-AllIdle}
use scx_imperator.Switch.Contexts.{imperator_running-AllIdle, imperator_stopping-AllIdle}
use scx_imperator.Init.Laws.{imperator_init_tasks}
use scx_imperator.Dispatch.Tried.{imperator_dispatch_tasks}
use scx_imperator.SelectCpu.Laws.Queued.{imperator_select_cpu-AllIdle}
use scx_imperator.System.{
  Machine, Step, init_task, enable, select_cpu, enqueue, dispatch, leave, running, tick, stopping,
  probe, IsClear, Reaches, started, then_step,
}

start-AllIdle : (m : Machine) → IsClear m → AllIdle m.world
unfolding AllIdle
start-AllIdle m s q t h = absurd (let bad = sym (s.no_context q) ∙ h in ground arith)

module _ (k : Kernel) (c : Rodata) (fits : c.quantum_ns < 2 ^ 64) where
  -- Every callback and every probe keeps all contexts well formed and without burst credit.
  Step-AllIdle : {m m' : Machine} → Step k c m m' → AllIdle m.world → AllIdle m'.world
  Step-AllIdle {m = m} (init_task fork prio p parent) all =
      imperator_init_task-AllIdle c fork prio p parent m.world all
  Step-AllIdle {m = m} (enable storage prio p) all =
      imperator_enable-AllIdle c storage prio p m.world fits all
  Step-AllIdle {m = m} (select_cpu env p queued fills) all =
      imperator_select_cpu-AllIdle k c env m.world p all
  Step-AllIdle {m = m} (enqueue env p queued fills) all =
      imperator_enqueue-AllIdle k c env m.world p all
  Step-AllIdle {m = m} (dispatch env honest) all =
      same-AllIdle m.world _ (imperator_dispatch_tasks c env m.world) all
  Step-AllIdle {m = m} (leave queued less) all = all
  Step-AllIdle {m = m} (running cpu now p) all = imperator_running-AllIdle c cpu now p m.world all
  Step-AllIdle {m = m} (tick env p) all = imperator_tick-AllIdle k c env p m.world all
  Step-AllIdle {m = m} (stopping runnable cpu now now' p) all =
      imperator_stopping-AllIdle c runnable cpu now now' p m.world all
  Step-AllIdle {m = m} (probe current is) all = on_current-AllIdle is current m.world all

  -- With a base quantum of 64 bits: at every point of a run of whole callbacks and probes, every
  -- context has all fields within their widths, a skip counter of at most four and no burst credit.
  pub Reaches-AllIdle : {m : Machine} → Reaches k c m → AllIdle m.world
  Reaches-AllIdle (started {m = m} create clear ok) =
      same-AllIdle m.world _ (imperator_init_tasks c create m.world) (start-AllIdle m clear)
  Reaches-AllIdle (then_step run step) = Step-AllIdle step (Reaches-AllIdle run)

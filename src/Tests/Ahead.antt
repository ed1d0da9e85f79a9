-- ===== src/Tests/Ahead.antt =====
-- Who is queued ahead of whom by imperator_enqueue of src/bpf/imperator.bpf.c, at concrete inputs.
use scx_imperator.Common.{ℕ, ◌^◌, ◌≤◌, ◌<◌, refl, arith, some, ◌==◌, if◌then◌else◌, none}
use scx_imperator.Intf.{irq_wake}
use scx_imperator.Intf.Packed.{get_tier-arith, has_flag-arith}
use scx_imperator.Intf.Fused.{mbox_get_tier-arith}
use scx_imperator.State.{TaskCtx, World}
use scx_imperator.Task.Idle.{IsIdle}
use scx_imperator.Deadline.{budget}
use scx_imperator.Deadline.Order.{default_budgets, default_longest}
use scx_imperator.Enqueue.{EnqEnv, imperator_enqueue}
use scx_imperator.Enqueue.Laws.{tier_at}
use scx_imperator.Enqueue.Aging.{QueuesAt, imperator_enqueue_aging}
use scx_imperator.Enqueue.Ahead.{imperator_enqueue_order}
use scx_imperator.Tests.Data.{kernel, rodata, task, task-IsWf, world}

-- CPU 3 wakes task 7, CPU 2 preempts task 8 at the same time, and task 7 is queued again 66 ms later.
abbrev wakeup : EnqEnv
wakeup = record { cpu = 3; now = 5000000; task_cpu = 2; task_flags = 0; enq_flags = 1 }

abbrev preemption : EnqEnv
preemption = record wakeup { cpu = 2; enq_flags = 2 ^ 32 }

abbrev later : EnqEnv
later = record wakeup { now = 71000000 }

-- A task of T2.
abbrev framed : TaskCtx
framed = record task { packed_info = 2 ^ 29 }

abbrev both : World
both = record world {
  tasks = λ q. if 7 == q then some task else if 8 == q then some framed else none;
}

task-IsIdle : IsIdle task
task-IsIdle = record { wf = task-IsWf; spent = refl }

framed-IsIdle : IsIdle framed
framed-IsIdle = record { wf = ground arith; spent = refl }

longest : (t : ℕ) → t < 8 → budget rodata t ≤ 50000000
longest t h = omega (arith, default_longest t)

imperator_enqueue_aging_example :
    (v : ℕ) × (v' : ℕ) × QueuesAt 8 v (imperator_enqueue kernel rodata preemption both 8).calls
    × QueuesAt 7 v' (imperator_enqueue kernel rodata later both 7).calls
    × v ≤ v'
imperator_enqueue_aging_example =
    imperator_enqueue_aging kernel rodata preemption later both both 8 7 50000000 longest
      (omega arith) (omega arith)

ahead :
    tier_at kernel rodata wakeup both task task-IsIdle
    < tier_at kernel rodata preemption both framed framed-IsIdle
ahead = ground (
  arith,
  get_tier-arith (2 ^ 28) (omega arith),
  get_tier-arith (2 ^ 29) (omega arith),
  has_flag-arith irq_wake (2 ^ 28),
  has_flag-arith irq_wake (2 ^ 29),
  mbox_get_tier-arith 128,
)

imperator_enqueue_order_example :
    (v : ℕ) × (v' : ℕ) × QueuesAt 7 v (imperator_enqueue kernel rodata wakeup both 7).calls
    × QueuesAt 8 v' (imperator_enqueue kernel rodata preemption both 8).calls
    × v < v'
imperator_enqueue_order_example =
    imperator_enqueue_order kernel rodata wakeup preemption both both 7 8 task framed task-IsIdle
      framed-IsIdle (omega (arith, default_budgets)) (omega (arith, default_budgets)) refl refl refl
      refl refl ahead

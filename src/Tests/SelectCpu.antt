-- ===== src/Tests/SelectCpu.antt =====
-- imperator_select_cpu of src/bpf/imperator.bpf.c at concrete inputs.
use scx_imperator.Common.{
  ℕ, ◌<◌, ◌==◌, ◌+◌, ◌≡◌, ◌∙◌, ◌&&◌, ◌||◌, true, false, some, none, [], ◌∷◌, ltb, if◌then◌else◌,
  arith, refl, bit_or, test_bit,
}
use scx_imperator.Intf.{has_flag, irq_wake, llc_dsq_base, cake_tier_critical, cpu_idx}
use scx_imperator.State.{dsq_insert, dsq_insert_vtime, tier_slice}
use scx_imperator.Compat.Scan.Clear.{listed}
use scx_imperator.Deadline.{tier_deadline}
use scx_imperator.Enqueue.{EnqEnv, enq_llc, advance, imperator_enqueue}
use scx_imperator.Enqueue.Kick.{kick_victim}
use scx_imperator.SelectCpu.{SelEnv, irq_context, steer_to_pcore, imperator_select_cpu}
use scx_imperator.SelectCpu.Hint.{pcpu_hint, prefer, full_idle}
use scx_imperator.SelectCpu.Hint.First.{first_such, pcpu_hint_lem}
use scx_imperator.SelectCpu.Laws.Direct.{Spent, imperator_select_cpu_idle}
use scx_imperator.SelectCpu.Laws.Queued.{select_cpu-enqueue_irq}
use scx_imperator.Task.Idle.{IsIdle}
use scx_imperator.Tests.Data.{kernel, two, task, task-IsWf, world}

-- A wakeup of task 7 on CPU 5 by an interrupt, with CPU 6 idle, and with every CPU busy.
abbrev idle_wakeup : SelEnv
idle_wakeup = record {
  cpu = 5;
  prev_cpu = 2;
  wake_flags = 0;
  in_hardirq = true;
  in_nmi = false;
  in_softirq = false;
  waker = none;
  allowed = λ cpu. ltb 0 cpu;
  dfl_first = λ _. record { cpu = 6; idle = true };
  dfl_again = λ cpu. record { cpu = cpu; idle = true };
}

abbrev busy_wakeup : SelEnv
busy_wakeup = record idle_wakeup { dfl_first = λ prev. record { cpu = prev; idle = false } }

imperator_select_cpu_idle_example :
    let o = imperator_select_cpu kernel two idle_wakeup world 7 in
    let irq = irq_context kernel idle_wakeup || has_flag irq_wake task.packed_info in
    (o.ret ≡ steer_to_pcore two idle_wakeup 6)
    × (o.outcome.calls
        ≡ dsq_insert 7
            (bit_or kernel.dsq_local_on o.ret)
            (if irq then tier_slice two cake_tier_critical else task.next_slice)
            0
          ∷ [])
    × Spent task (o.outcome.world.tasks 7)
imperator_select_cpu_idle_example =
    imperator_select_cpu_idle kernel two idle_wakeup world 7 task task-IsWf refl refl

-- CPUs 0 and 1 share a core, so CPU 2 is the hint.
pcpu_hint_lem_example :
    let big = listed (test_bit two.big_cpu_mask) 64 0 in
    (pcpu_hint two idle_wakeup.allowed
      ≡ prefer
          (first_such (λ x. idle_wakeup.allowed x && full_idle two x) big)
          (first_such idle_wakeup.allowed big))
    × ((x i : ℕ)
        → x < 64
        → i < 64
        → full_idle two x ≡ true
        → (x == i) ≡ false
        → test_bit (two.core_cpu_mask (two.cpu_core_id (cpu_idx x))) i ≡ false)
pcpu_hint_lem_example = pcpu_hint_lem two idle_wakeup.allowed (omega arith)

pcpu_hint_is : pcpu_hint two idle_wakeup.allowed ≡ some 2
unfolding first_such listed full_idle test_bit cpu_idx
pcpu_hint_is = (pcpu_hint_lem two idle_wakeup.allowed (omega arith)).0 ∙ refl

task-IsIdle : IsIdle task
task-IsIdle = record { wf = task-IsWf; spent = refl }

-- The same task is queued by CPU 5, in the LLC of CPU 2.
abbrev woken : EnqEnv
woken = record { cpu = 5; now = 9000000; task_cpu = 2; task_flags = 0; enq_flags = 1 }

irq_here : irq_context kernel busy_wakeup ≡ true
unfolding irq_context
irq_here = refl

select_cpu-enqueue_irq_example :
    let w' = (imperator_select_cpu kernel two busy_wakeup world 7).outcome.world in
    (imperator_enqueue kernel two woken w' 7).calls
    ≡ dsq_insert_vtime 7
        (llc_dsq_base + enq_llc two woken)
        task.next_slice
        (tier_deadline two woken.now 0 (advance two task.packed_info))
        woken.enq_flags
      ∷ kick_victim kernel w' (enq_llc two woken) 0
select_cpu-enqueue_irq_example =
    select_cpu-enqueue_irq kernel two busy_wakeup woken world 7 task task-IsIdle refl refl irq_here
      refl refl

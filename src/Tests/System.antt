-- ===== src/Tests/System.antt =====
-- A run of the whole scheduler, of src/bpf/imperator.bpf.c, at concrete inputs: the started, a task that is
-- enabled and queued, and a CPU of the other LLC that looks for work.
use scx_imperator.Common.{
  ℕ, ◌+◌, ◌<◌, ◌≡◌, true, none, ◌==◌, ==_iff, if◌then◌else◌, arith, refl, inl, inr, Bool-cases, pos,
}
use scx_imperator.State.{World}
use scx_imperator.Intf.{cpu_idx, llc_dsq_base, llc_idx}
use scx_imperator.Task.Idle.{AllIdle}
use scx_imperator.Task.Alloc.{imperator_enable}
use scx_imperator.Init.{imperator_init}
use scx_imperator.Init.Laws.{imperator_init_success}
use scx_imperator.Enqueue.{EnqEnv, enq_llc, imperator_enqueue}
use scx_imperator.Enqueue.Marks.{imperator_enqueue_inserts}
use scx_imperator.Dispatch.{DispatchEnv, search}
use scx_imperator.Dispatch.Tried.{delivers}
use scx_imperator.System.{IsClear, Machine, Fills, enable, enqueue, Reaches, started, then_step}
use scx_imperator.System.Contexts.{Reaches-AllIdle}
use scx_imperator.System.Flags.{Visible, IsSetUp, Reaches-Visible, Reaches-moves}
use scx_imperator.Tests.Data.{kernel, two, world}

abbrev pub empty : Machine
empty = record {
  world = record world { tasks = λ _. none; llc_cpu_mask = λ _. 0; tier_cpu_mask = λ _. 0 };
  queued = λ _. 0;
}

abbrev pub booted : Machine
booted = record empty { world = (imperator_init two (λ _. pos 0) empty.world).world }

abbrev pub enabled : Machine
enabled = record booted { world = imperator_enable two true 110 7 booted.world }

-- CPU 2 queues task 7, which was on CPU 5.
abbrev pub woken : EnqEnv
woken = record { cpu = 2; now = 9000000; task_cpu = 5; task_flags = 0; enq_flags = 1 }

abbrev pub one_waits : ℕ → ℕ
one_waits dsq = if llc_dsq_base + enq_llc two woken == dsq then 1 else 0

abbrev queued : Machine
queued = record {
  world = (imperator_enqueue kernel two woken enabled.world 7).world;
  queued = one_waits;
}

pub fills : (w : World) → Fills (imperator_enqueue kernel two woken w 7).calls (λ _. 0) one_waits
unfolding Fills
fills w dsq waiting = elim (Bool-cases (llc_dsq_base + enq_llc two woken == dsq)) [
  | inl here ↦
      let e : llc_dsq_base + enq_llc two woken ≡ dsq =
        (==_iff (llc_dsq_base + enq_llc two woken) dsq).0 here in
      inr (rw e at (imperator_enqueue_inserts kernel two woken w 7))
  | inr other ↦ absurd (ground arith)
]

pub empty-IsClear : IsClear empty
empty-IsClear = record { no_context = λ p. refl; no_cpu = λ llc. refl; no_task = λ dsq. refl }

pub created_all : (imperator_init two (λ _. pos 0) empty.world).created.ret ≡ pos 0
created_all = (imperator_init_success two (λ _. pos 0) empty.world (λ m lt. refl)).0

after_start : Reaches kernel two booted
after_start = started {m = empty} (λ _. pos 0) empty-IsClear created_all

run : Reaches kernel two queued
run =
    then_step (then_step after_start (enable true 110 7))
      (enqueue woken 7 one_waits (fills enabled.world))

two-IsSetUp : IsSetUp kernel two
two-IsSetUp = record {
  few_llcs = omega arith;
  llc_range = λ cpu. ground arith;
  local_apart = omega arith;
}

Reaches-AllIdle_example : AllIdle queued.world
Reaches-AllIdle_example = Reaches-AllIdle kernel two (omega arith) run

Reaches-Visible_example : Visible queued
Reaches-Visible_example = Reaches-Visible kernel two two-IsSetUp run

abbrev looking : DispatchEnv
looking = record { cpu = 0; moves = λ dsq. dsq == 201; nr_queued = one_waits }

waits : 0 < queued.queued (llc_dsq_base + 1)
unfolding enq_llc cpu_idx llc_idx
waits = omega arith

Reaches-moves_example : (search two looking queued.world).moved ≡ true
unfolding delivers
Reaches-moves_example =
    Reaches-moves kernel two two-IsSetUp looking 1 run (omega arith) refl (λ _. waits)

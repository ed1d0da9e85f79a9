-- ===== src/System/Runs.antt =====
-- The scheduler with the kernel's context switches: which task each CPU runs, in a run of all the
-- callbacks of src/bpf/imperator.bpf.c and the probes of src/bpf/lock.bpf.c.
use scx_imperator.Common.{ℤ, pos, ℕ, ◌<◌, ◌≡◌, ◌≢◌, Bool, Option, none, some, update, u32}
use scx_imperator.State.{Rodata, Kernel}
use scx_imperator.Switch.{imperator_running, imperator_stopping}
use scx_imperator.Init.{imperator_init}
use scx_imperator.System.{
  Machine, Step, init_task, enable, select_cpu, enqueue, dispatch, leave, running, tick, stopping,
  probe, IsClear, Reaches, started, then_step,
}

-- The task that each CPU runs, or none.
abbrev pub Roster : Type 0
Roster = ℕ → Option ℕ

-- No CPU runs the task.
unfoldable pub Rests : Roster → ℕ → Type 0
Rests r p = (cpu : ℕ) → r cpu ≢ some p

-- The steps between two context switches. A task is prepared, enabled, woken and queued while no CPU
-- runs it; a tick and a probe may find it running.
unfoldable pub IsBetween :
    {k : Kernel} {c : Rodata} {m m' : Machine} → Roster → Step k c m m' → Type 0
IsBetween r (init_task fork prio p parent) = Rests r p
IsBetween r (enable storage prio p) = Rests r p
IsBetween r (select_cpu env p queued fills) = Rests r p
IsBetween r (enqueue env p queued fills) = Rests r p
IsBetween r (dispatch env honest) = Unit {0}
IsBetween r (leave queued less) = Unit {0}
IsBetween r (running cpu now p) = ⊥
IsBetween r (tick env p) = Unit {0}
IsBetween r (stopping runnable cpu now now' p) = ⊥
IsBetween r (probe current is) = Unit {0}

-- A run from the start of the scheduler, by the rules of the kernel. It lets a CPU run a task only when it runs none and
-- no other CPU runs the task, and stops the one that it runs. A task that has no context may run too.
pub data Runs (k : Kernel) (c : Rodata) : Machine → Roster → Type 0 where
  booted :
      {m : Machine} (create : ℕ → ℤ)
      → IsClear m
      → ((tier : ℕ) → m.world.tier_cpu_mask tier ≡ 0)
      → (imperator_init c create m.world).created.ret ≡ pos 0
      → Runs k c (record m { world = (imperator_init c create m.world).world }) (λ _. none)
  between :
      {m m' : Machine} {r : Roster}
      → Runs k c m r
      → (step : Step k c m m') → IsBetween r step
      → Runs k c m' r
  run :
      {m : Machine} {r : Roster} (cpu now p : ℕ)
      → Runs k c m r
      → cpu < 64
      → r cpu ≡ none
      → Rests r p
      → Runs k c
          (record m { world = imperator_running c cpu now p m.world })
          (update r cpu (some p))
  stop :
      {m : Machine} {r : Roster} (runnable : Bool) (cpu now now' p : ℕ)
      → Runs k c m r
      → cpu < 64
      → r cpu ≡ some p
      → Runs k c
          (record m { world = imperator_stopping c runnable cpu now now' p m.world })
          (update r cpu none)

-- No task starts to run at a time whose low 32 bits are 0.
unfoldable pub NonzeroClock :
    {k : Kernel} {c : Rodata} {m : Machine} {r : Roster} → Runs k c m r → Type 0
NonzeroClock (booted create clear zeros ok) = Unit {0}
NonzeroClock (between before step is) = NonzeroClock before
NonzeroClock (run cpu now p before small idle rests) = (u32 now ≢ 0) × NonzeroClock before
NonzeroClock (stop runnable cpu now now' p before small at) = NonzeroClock before

pub Runs-Reaches :
    (k : Kernel) (c : Rodata) {m : Machine} {r : Roster} → Runs k c m r → Reaches k c m
Runs-Reaches k c (booted create clear zeros ok) = started create clear ok
Runs-Reaches k c (between before step is) = then_step (Runs-Reaches k c before) step
Runs-Reaches k c (run cpu now p before small idle rests) =
    then_step (Runs-Reaches k c before) (running cpu now p)
Runs-Reaches k c (stop runnable cpu now now' p before small at) =
    then_step (Runs-Reaches k c before) (stopping runnable cpu now now' p)

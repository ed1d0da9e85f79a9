-- ===== src/System.antt =====
-- The scheduler as a whole: the callbacks of src/bpf/imperator.bpf.c and the probes of
-- src/bpf/lock.bpf.c, one after the other in any order, and the queues that the kernel keeps.
pub mod Contexts
pub mod Counters
pub mod Flags
pub mod Members
pub mod Runs
pub mod Tiers
pub mod Roster
pub mod Exact
pub mod Kicks
pub mod Race
use scx_imperator.Common.{pos, ℕ, ◌≤◌, ◌<◌, ◌≡◌, ◌⊎◌, Bool, true, Option, none, List, ℤ}
use scx_imperator.State.{TaskCtx, Rodata, World, Kernel, Call, inserts_into}
use scx_imperator.Task.Alloc.{imperator_enable}
use scx_imperator.Task.InitTask.{imperator_init_task}
use scx_imperator.Tick.{Env, imperator_tick}
use scx_imperator.Enqueue.{EnqEnv, imperator_enqueue}
use scx_imperator.Lock.{on_current}
use scx_imperator.Lock.Contexts.{IsProbe}
use scx_imperator.Switch.{imperator_running, imperator_stopping}
use scx_imperator.Init.{imperator_init}
use scx_imperator.Dispatch.{DispatchEnv, imperator_dispatch}
use scx_imperator.SelectCpu.{SelEnv, imperator_select_cpu}

-- How many tasks wait in each queue is the kernel's to know.
pub record Machine : Type 0 where
  pub world : World
  pub queued : ℕ → ℕ

-- A queue has tasks in it only if it had before, or if one was inserted.
unfoldable pub Fills : List Call → (ℕ → ℕ) → (ℕ → ℕ) → Type 0
Fills calls queued queued' =
    (dsq : ℕ) → 0 < queued' dsq → (0 < queued dsq) ⊎ (inserts_into dsq calls ≡ true)

-- One callback. A dispatch is told the true number of waiting tasks of a queue that delivers none;
-- what it moves is gone from the queues, and tasks leave them at other times too.
pub data Step (k : Kernel) (c : Rodata) : Machine → Machine → Type 0 where
  init_task :
      {m : Machine} (fork : Bool) (prio p : ℕ) (parent : Option ℕ)
      → Step k c m (record m { world = imperator_init_task c fork prio p parent m.world })
  enable :
      {m : Machine} (storage : Bool) (prio p : ℕ)
      → Step k c m (record m { world = imperator_enable c storage prio p m.world })
  select_cpu :
      {m : Machine} (env : SelEnv) (p : ℕ) (queued : ℕ → ℕ)
      → Fills (imperator_select_cpu k c env m.world p).outcome.calls m.queued queued
      → Step k c m (record {
        world = (imperator_select_cpu k c env m.world p).outcome.world;
        queued = queued;
      })
  enqueue :
      {m : Machine} (env : EnqEnv) (p : ℕ) (queued : ℕ → ℕ)
      → Fills (imperator_enqueue k c env m.world p).calls m.queued queued
      → Step k c m (record { world = (imperator_enqueue k c env m.world p).world; queued = queued })
  dispatch :
      {m : Machine} (env : DispatchEnv)
      → ((dsq : ℕ) → env.nr_queued dsq ≡ m.queued dsq)
      → Step k c m (record m { world = (imperator_dispatch c env m.world).world })
  leave :
      {m : Machine} (queued : ℕ → ℕ)
      → ((dsq : ℕ) → queued dsq ≤ m.queued dsq)
      → Step k c m (record m { queued = queued })
  running :
      {m : Machine} (cpu now p : ℕ)
      → Step k c m (record m { world = imperator_running c cpu now p m.world })
  tick :
      {m : Machine} (env : Env) (p : ℕ)
      → Step k c m (record m { world = (imperator_tick k c env p m.world).world })
  stopping :
      {m : Machine} (runnable : Bool) (cpu now now' p : ℕ)
      → Step k c m (record m { world = imperator_stopping c runnable cpu now now' p m.world })
  probe :
      {m : Machine} {f : TaskCtx → TaskCtx} (current : Option ℕ)
      → IsProbe f
      → Step k c m (record m { world = on_current current f m.world })

-- Before the start: the arrays are clear, no task has a context, and none waits.
pub record IsClear (m : Machine) : Type 0 where
  pub no_context : (p : ℕ) → m.world.tasks p ≡ none
  pub no_cpu : (llc : ℕ) → m.world.llc_cpu_mask llc ≡ 0
  pub no_task : (dsq : ℕ) → m.queued dsq ≡ 0

-- The scheduler runs if its start succeeds.
pub data Reaches (k : Kernel) (c : Rodata) : Machine → Type 0 where
  started :
      {m : Machine} (create : ℕ → ℤ)
      → IsClear m
      → (imperator_init c create m.world).created.ret ≡ pos 0
      → Reaches k c (record m { world = (imperator_init c create m.world).world })
  then_step : {m m' : Machine} → Reaches k c m → Step k c m m' → Reaches k c m'

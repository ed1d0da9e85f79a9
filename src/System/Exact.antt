-- ===== src/System/Exact.antt =====
-- tier_cpu_mask and the kick of imperator_enqueue at every point of a run with context switches.
use scx_imperator.Common.{ℕ, ◌^◌, ◌<◌, ◌≡◌, refl, arith, none, some}
use scx_imperator.State.{TaskCtx, Rodata, Kernel}
use scx_imperator.Task.Idle.{IsIdle, AllIdle}
use scx_imperator.Init.Laws.{imperator_init_tiers}
use scx_imperator.Switch.Masks.{zero-MasksExact, same-MasksExact}
use scx_imperator.System.{Machine}
use scx_imperator.System.Contexts.{Reaches-AllIdle}
use scx_imperator.System.Runs.{Roster, Runs, booted, between, run, stop, NonzeroClock, Runs-Reaches}
use scx_imperator.System.Tiers.{RosterExact, Step-Steady, Steady-RosterExact}
use scx_imperator.System.Roster.{imperator_running-RosterExact, imperator_stopping-RosterExact}

module _ (k : Kernel) (c : Rodata) (fits : c.quantum_ns < 2 ^ 64) where
  pub Runs-AllIdle : {m : Machine} {r : Roster} → Runs k c m r → AllIdle m.world
  Runs-AllIdle runs = Reaches-AllIdle k c fits (Runs-Reaches k c runs)

  pub Runs-IsIdle :
      {m : Machine} {r : Roster}
      → Runs k c m r
      → (p : ℕ) (t : TaskCtx) → m.world.tasks p ≡ some t
      → IsIdle t
  unfolding AllIdle
  Runs-IsIdle runs p t here = Runs-AllIdle runs p t here

  -- With a base quantum of 64 bits, at every point of a run of all callbacks, probes and context
  -- switches in which no task starts to run at a time whose low 32 bits are 0, and a task is
  -- prepared, enabled, woken, queued and switched in only while no CPU runs it, on a CPU that runs
  -- none: the bit of a CPU is set in the mask of a tier exactly if the task that the CPU runs is of
  -- that tier by its context, and the masks have no bit beyond the 64 CPUs. Each task that runs and
  -- has a context has its time stamp, and no task runs on two CPUs.
  pub Runs-RosterExact :
      {m : Machine} {r : Roster} (runs : Runs k c m r) → NonzeroClock runs → RosterExact m.world r
  unfolding NonzeroClock
  Runs-RosterExact (booted {m = m} create clear zeros ok) clock = record {
    masks =
        same-MasksExact m.world _ (λ _. none) _ (imperator_init_tiers c create m.world)
          (λ cpu. refl) (zero-MasksExact m.world zeros);
    stamped = λ cpu p at. absurd (ground (arith, at));
    apart = λ i j p at _. absurd (ground (arith, at));
  }
  Runs-RosterExact (between {m = m} {m' = m'} {r = r} before step is) clock =
      Steady-RosterExact r m.world m'.world (Step-Steady k c r step is (Runs-AllIdle before))
        (Runs-RosterExact before clock)
  Runs-RosterExact (run {m = m} {r = r} cpu now p before small free rests) clock =
      imperator_running-RosterExact c m.world r (Runs-RosterExact before clock.1) cpu p small now
        (Runs-AllIdle before) clock.0 free rests
  Runs-RosterExact (stop {m = m} {r = r} runnable cpu now now' p before small held) clock =
      imperator_stopping-RosterExact c m.world r (Runs-RosterExact before clock) cpu p small
        runnable now now' (Runs-AllIdle before) held

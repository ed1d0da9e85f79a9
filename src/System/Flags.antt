-- ===== src/System/Flags.antt =====
-- The flags of the LLCs in a run of the scheduler, and a CPU that asks for work.
use scx_imperator.Common.{ℕ, ◌+◌, ◌≤◌, ◌<◌, ◌≡◌, ◌⊎◌, ap, arith, true, inl, inr}
use scx_imperator.Intf.{cpu_idx, llc_dsq_base}
use scx_imperator.State.{Rodata, World, Kernel}
use scx_imperator.Task.Alloc.Contexts.{imperator_enable-SameLlcs}
use scx_imperator.Task.InitTask.Contexts.{imperator_init_task-SameLlcs}
use scx_imperator.Tick.Contexts.{imperator_tick-SameLlcs}
use scx_imperator.Enqueue.{EnqEnv, imperator_enqueue}
use scx_imperator.Enqueue.Marks.{imperator_enqueue_into, imperator_enqueue_marks}
use scx_imperator.Lock.Contexts.{on_current-SameLlcs}
use scx_imperator.Switch.Contexts.{imperator_running-SameLlcs, imperator_stopping-SameLlcs}
use scx_imperator.Init.Laws.{imperator_init_nonempty}
use scx_imperator.Dispatch.{DispatchEnv, search, imperator_dispatch}
use scx_imperator.Dispatch.Tried.{delivers}
use scx_imperator.Dispatch.Work.{imperator_dispatch_keeps, imperator_dispatch_moves}
use scx_imperator.SelectCpu.Laws.Queued.{imperator_select_cpu-SameLlcs, imperator_select_cpu_into}
use scx_imperator.System.{
  Machine, Step, Fills, init_task, enable, select_cpu, enqueue, dispatch, leave, running, tick,
  stopping, probe, IsClear, Reaches, started, then_step,
}

-- The flag of an LLC is set whenever tasks wait in its queue.
unfoldable pub Visible : Machine → Type 0
Visible m = (llc : ℕ) → llc < 8 → 0 < m.queued (llc_dsq_base + llc) → 0 < m.world.llc_nonempty llc

-- The arrays and the kernel's numbers are those of a machine of at most eight LLCs.
pub record IsSetUp (k : Kernel) (c : Rodata) : Type 0 where
  pub few_llcs : c.nr_llcs ≤ 8
  pub llc_range : (cpu : ℕ) → c.cpu_llc_id (cpu_idx cpu) < c.nr_llcs
  pub local_apart : llc_dsq_base + 8 ≤ k.dsq_local_on

start-Visible : (m : Machine) → IsClear m → Visible m
unfolding Visible
start-Visible m s llc small waiting =
    absurd (omega (arith, waiting, s.no_task (llc_dsq_base + llc)))

-- Flags that do not change, and queues that do not fill.
same-Visible :
    (m : Machine) (w : World)
    → w.llc_nonempty ≡ m.world.llc_nonempty
    → Visible m
    → Visible (record m { world = w })
unfolding Visible
same-Visible m w same seen llc small waiting =
    let e : w.llc_nonempty llc ≡ m.world.llc_nonempty llc = ap (λ (f : ℕ → ℕ). f llc) same in
    omega (arith, e, seen llc small waiting)

leave-Visible :
    (m : Machine) (queued : ℕ → ℕ)
    → ((dsq : ℕ) → queued dsq ≤ m.queued dsq)
    → Visible m
    → Visible (record m { queued = queued })
unfolding Visible
leave-Visible m queued less seen llc small waiting =
    seen llc small (omega (arith, waiting, less (llc_dsq_base + llc)))

module _ (k : Kernel) (c : Rodata) (set_up : IsSetUp k c) where
  enqueue-Visible :
      (m : Machine) (env : EnqEnv) (p : ℕ) (queued : ℕ → ℕ)
      → Fills (imperator_enqueue k c env m.world p).calls m.queued queued
      → Visible m
      → Visible (record { world = (imperator_enqueue k c env m.world p).world; queued = queued })
  unfolding Visible Fills
  enqueue-Visible m env p queued fills seen llc small waiting =
      let marks = imperator_enqueue_marks k c env m.world p llc in
      elim (fills (llc_dsq_base + llc) waiting) [
        | inl before ↦ marks.0 (seen llc small before)
        | inr new ↦
            let into = imperator_enqueue_into k c env m.world p (llc_dsq_base + llc) new in
            marks.1 (omega (arith, into))
      ]

  select_cpu-Visible :
      (m : Machine) (w : World) (queued : ℕ → ℕ)
      → w.llc_nonempty ≡ m.world.llc_nonempty
      → ((dsq : ℕ) → 0 < queued dsq → (0 < m.queued dsq) ⊎ (k.dsq_local_on ≤ dsq))
      → Visible m
      → Visible (record { world = w; queued = queued })
  unfolding Visible
  select_cpu-Visible m w queued same fills seen llc small waiting =
      let e : w.llc_nonempty llc ≡ m.world.llc_nonempty llc = ap (λ (f : ℕ → ℕ). f llc) same in
      elim (fills (llc_dsq_base + llc) waiting) [
        | inl before ↦ omega (arith, e, seen llc small before)
        | inr local ↦ absurd (omega (arith, local, set_up.local_apart))
      ]

  dispatch-Visible :
      (m : Machine) (env : DispatchEnv)
      → ((dsq : ℕ) → env.nr_queued dsq ≡ m.queued dsq)
      → Visible m
      → Visible (record m { world = (imperator_dispatch c env m.world).world })
  unfolding Visible
  dispatch-Visible m env honest seen llc small waiting =
      let told : 0 < env.nr_queued (llc_dsq_base + llc) =
        omega (arith, waiting, honest (llc_dsq_base + llc)) in
      let kept =
        imperator_dispatch_keeps c env m.world llc set_up.few_llcs
          (omega (arith, set_up.few_llcs, set_up.llc_range env.cpu)) told in
      omega (arith, kept, seen llc small waiting)

  Step-Visible : {m m' : Machine} → Step k c m m' → Visible m → Visible m'
  unfolding Fills
  Step-Visible {m = m} (init_task fork prio p parent) =
      same-Visible m _ (imperator_init_task-SameLlcs c fork prio p parent m.world).same_flags
  Step-Visible {m = m} (enable storage prio p) =
      same-Visible m _ (imperator_enable-SameLlcs c storage prio p m.world).same_flags
  Step-Visible {m = m} (select_cpu env p queued fills) =
      select_cpu-Visible m _ queued (imperator_select_cpu-SameLlcs k c env m.world p).same_flags
        (λ dsq waiting. elim (fills dsq waiting) [
          | inl before ↦ inl before
          | inr new ↦ inr (imperator_select_cpu_into k c env m.world p dsq new)
        ])
  Step-Visible {m = m} (enqueue env p queued fills) = enqueue-Visible m env p queued fills
  Step-Visible {m = m} (dispatch env honest) = dispatch-Visible m env honest
  Step-Visible {m = m} (leave queued less) = λ seen. leave-Visible m queued less seen
  Step-Visible {m = m} (running cpu now p) =
      same-Visible m _ (imperator_running-SameLlcs c cpu now p m.world).same_flags
  Step-Visible {m = m} (tick env p) =
      same-Visible m _ (imperator_tick-SameLlcs k c env p m.world).same_flags
  Step-Visible {m = m} (stopping runnable cpu now now' p) =
      same-Visible m _ (imperator_stopping-SameLlcs c runnable cpu now now' p m.world).same_flags
  Step-Visible {m = m} (probe {f = f} current is) =
      same-Visible m _ (on_current-SameLlcs f current m.world).same_flags

  -- With at most eight LLCs and every CPU configured into one of them: at every point of a run of
  -- whole callbacks, the flag of an LLC is set if tasks wait in its queue.
  pub Reaches-Visible : {m : Machine} → Reaches k c m → Visible m
  Reaches-Visible (started {m = m} create clear ok) =
      same-Visible m _ (imperator_init_nonempty c create m.world) (start-Visible m clear)
  Reaches-Visible (then_step run step) = Step-Visible step (Reaches-Visible run)

  -- With at most eight LLCs and every CPU configured into one of them: at every point of a run of
  -- whole callbacks, a CPU that asks for work gets a task, if the queue of any configured LLC has one
  -- that can be moved to it.
  pub Reaches-moves :
      {m : Machine} (env : DispatchEnv) (llc : ℕ)
      → Reaches k c m
      → llc < c.nr_llcs
      → delivers env llc ≡ true
      → (delivers env llc ≡ true → 0 < m.queued (llc_dsq_base + llc))
      → (search c env m.world).moved ≡ true
  unfolding Visible
  Reaches-moves {m = m} env llc run small can honest =
      imperator_dispatch_moves c env m.world llc set_up.few_llcs (set_up.llc_range env.cpu) small
        (inr (Reaches-Visible run llc (omega (arith, set_up.few_llcs)) (honest can))) can

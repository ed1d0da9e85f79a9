-- ===== src/System/Tiers.antt =====
-- tier_cpu_mask in a run of the scheduler with the kernel's context switches.
use scx_imperator.Common.{
  ℕ, ◌≡◌, ◌∙◌, refl, sym, ap, true, Option, none, some, ◌==◌, ==_iff, Bool-cases, inl, inr,
}
use scx_imperator.State.{Rodata, World, Kernel}
use scx_imperator.Task.Frame.{
  OnlyTask, tier_of, is_stamped, RunsOn, same-RunsOn, AllRunOn, same-AllRunOn,
}
use scx_imperator.Task.Idle.{AllIdle}
use scx_imperator.Task.Alloc.Contexts.{imperator_enable-OnlyTask}
use scx_imperator.Task.InitTask.Contexts.{imperator_init_task-OnlyTask}
use scx_imperator.Tick.Onward.{imperator_tick-AllRunOn}
use scx_imperator.Enqueue.Frame.{imperator_enqueue-OnlyTask}
use scx_imperator.Lock.Onward.{on_current-AllRunOn}
use scx_imperator.Switch.Masks.{Running, MasksExact, same-MasksExact}
use scx_imperator.Dispatch.Tried.{imperator_dispatch_tasks, imperator_dispatch_tiers}
use scx_imperator.SelectCpu.Laws.Queued.{imperator_select_cpu-OnlyTask}
use scx_imperator.System.{
  Machine, Step, init_task, enable, select_cpu, enqueue, dispatch, leave, running, tick, stopping,
  probe,
}
use scx_imperator.System.Runs.{Roster, Rests, IsBetween}

-- The tier that each CPU runs, by the contexts as they are now.
abbrev pub tier_at : World → Option ℕ → Option ℕ
tier_at w none = none
tier_at w (some p) = tier_of (w.tasks p)

abbrev pub tiers_of : World → Roster → Running
tiers_of w r cpu = tier_at w (r cpu)

-- What a run keeps of the masks and of the tasks that run.
pub record RosterExact (w : World) (r : Roster) : Type 0 where
  pub masks : MasksExact w (tiers_of w r)
  pub stamped : (cpu p : ℕ) → r cpu ≡ some p → is_stamped (w.tasks p) ≡ true
  pub apart : (i j p : ℕ) → r i ≡ some p → r j ≡ some p → i ≡ j

-- A step that leaves the running tasks in their tiers.
pub record Steady (r : Roster) (w w' : World) : Type 0 where
  pub same_tiers : w'.tier_cpu_mask ≡ w.tier_cpu_mask
  pub go_on : (cpu p : ℕ) → r cpu ≡ some p → RunsOn (w.tasks p) (w'.tasks p)

Only-Steady : (r : Roster) (p : ℕ) (w w' : World) → OnlyTask p w w' → Rests r p → Steady r w w'
unfolding Rests
Only-Steady r p w w' only rests = record {
  same_tiers = only.same_tiers;
  go_on = λ cpu q at. elim (Bool-cases (p == q)) [
    | inl e ↦ absurd (rests cpu (at ∙ ap some (sym ((==_iff p q).0 e))))
    | inr other ↦ same-RunsOn (w.tasks q) (w'.tasks q) (only.others q other)
  ];
}

All-Steady : (r : Roster) (w w' : World) → AllRunOn w w' → Steady r w w'
All-Steady r w w' all = record { same_tiers = all.same_tiers; go_on = λ cpu q at. all.go_on q }

pub Step-Steady :
    (k : Kernel) (c : Rodata) (r : Roster) {m m' : Machine} (step : Step k c m m')
    → IsBetween r step
    → AllIdle m.world
    → Steady r m.world m'.world
unfolding IsBetween
Step-Steady k c r {m = m} (init_task fork prio p parent) rests all =
    Only-Steady r p m.world _ (imperator_init_task-OnlyTask c fork prio p parent m.world) rests
Step-Steady k c r {m = m} (enable storage prio p) rests all =
    Only-Steady r p m.world _ (imperator_enable-OnlyTask c storage prio p m.world) rests
Step-Steady k c r {m = m} (select_cpu env p queued fills) rests all =
    Only-Steady r p m.world _ (imperator_select_cpu-OnlyTask k c env m.world p) rests
Step-Steady k c r {m = m} (enqueue env p queued fills) rests all =
    Only-Steady r p m.world _ (imperator_enqueue-OnlyTask k c env m.world p) rests
Step-Steady k c r {m = m} (dispatch env honest) is all = All-Steady r m.world _ (
    same-AllRunOn m.world _ (imperator_dispatch_tiers c env m.world)
      (imperator_dispatch_tasks c env m.world))
Step-Steady k c r {m = m} (leave queued less) is all =
    All-Steady r m.world _ (same-AllRunOn m.world m.world refl refl)
Step-Steady k c r {m = m} (running cpu now p) is all = absurd is
Step-Steady k c r {m = m} (tick env p) is all =
    All-Steady r m.world _ (imperator_tick-AllRunOn k c env p m.world)
Step-Steady k c r {m = m} (stopping runnable cpu now now' p) is all = absurd is
Step-Steady k c r {m = m} (probe current is) _ all =
    All-Steady r m.world _ (on_current-AllRunOn is current m.world all)

Steady-tier_at :
    (r : Roster) (w w' : World) (cpu : ℕ) (x : Option ℕ)
    → Steady r w w'
    → r cpu ≡ x
    → tier_at w' x ≡ tier_at w x
Steady-tier_at r w w' cpu none steady at = refl
Steady-tier_at r w w' cpu (some p) steady at = (steady.go_on cpu p at).same_tier

pub Steady-RosterExact :
    (r : Roster) (w w' : World) → Steady r w w' → RosterExact w r → RosterExact w' r
Steady-RosterExact r w w' steady e = record {
  masks =
      same-MasksExact w w' (tiers_of w r) (tiers_of w' r) steady.same_tiers
        (λ cpu. Steady-tier_at r w w' cpu (r cpu) steady refl) e.masks;
  stamped = λ cpu p at. (steady.go_on cpu p at).stays_stamped (e.stamped cpu p at);
  apart = e.apart;
}

-- ===== src/System/Members.antt =====
-- The CPU masks of the LLCs in a run of the scheduler, and whom a kick hits.
use scx_imperator.Common.{
  ℤ, ℕ, ◌^◌, ◌≤◌, ◌<◌, ◌≡◌, ◌∙◌, refl, sym, ap, true, List, [], ◌∷◌, test_bit, test_bit-zero,
}
use scx_imperator.Intf.{llc_idx}
use scx_imperator.State.{Rodata, Kernel, Call, kick_cpu}
use scx_imperator.Task.Alloc.Contexts.{imperator_enable-SameLlcs}
use scx_imperator.Task.InitTask.Contexts.{imperator_init_task-SameLlcs}
use scx_imperator.Tick.Contexts.{imperator_tick-SameLlcs}
use scx_imperator.Enqueue.Marks.{imperator_enqueue_masks}
use scx_imperator.Enqueue.Kick.{kick_victim}
use scx_imperator.Enqueue.Kick.Victim.{Picks, bulk, frame, nobody, kick_victim_lem, runs_in-llc}
use scx_imperator.Lock.Contexts.{on_current-SameLlcs}
use scx_imperator.Switch.Contexts.{imperator_running-SameLlcs, imperator_stopping-SameLlcs}
use scx_imperator.Init.{imperator_init}
use scx_imperator.Init.Laws.{is_member, imperator_init_masks}
use scx_imperator.Dispatch.Tried.{imperator_dispatch_masks}
use scx_imperator.SelectCpu.Laws.Queued.{imperator_select_cpu-SameLlcs}
use scx_imperator.System.{
  Machine, Step, init_task, enable, select_cpu, enqueue, dispatch, leave, running, tick, stopping,
  probe, IsClear, Reaches, started, then_step,
}

-- The masks are those of the configuration.
unfoldable pub MasksOf : Rodata → Machine → Type 0
MasksOf c m = (llc cpu : ℕ) → test_bit (m.world.llc_cpu_mask llc) cpu ≡ is_member c llc cpu

same-MasksOf :
    (c : Rodata) (m m' : Machine)
    → m'.world.llc_cpu_mask ≡ m.world.llc_cpu_mask
    → MasksOf c m
    → MasksOf c m'
unfolding MasksOf
same-MasksOf c m m' same of_c llc cpu = ap (λ (f : ℕ → ℕ). test_bit (f llc) cpu) same ∙ of_c llc cpu

module _ (k : Kernel) (c : Rodata) where
  started-MasksOf :
      (m : Machine) (create : ℕ → ℤ)
      → IsClear m
      → MasksOf c (record m { world = (imperator_init c create m.world).world })
  unfolding MasksOf
  started-MasksOf m create clear llc cpu =
      imperator_init_masks c create m.world llc cpu ∙ rw (clear.no_cpu llc, test_bit-zero cpu) refl

  Step_masks : {m m' : Machine} → Step k c m m' → m'.world.llc_cpu_mask ≡ m.world.llc_cpu_mask
  Step_masks {m = m} (init_task fork prio p parent) =
      (imperator_init_task-SameLlcs c fork prio p parent m.world).same_masks
  Step_masks {m = m} (enable storage prio p) =
      (imperator_enable-SameLlcs c storage prio p m.world).same_masks
  Step_masks {m = m} (select_cpu env p queued fills) =
      (imperator_select_cpu-SameLlcs k c env m.world p).same_masks
  Step_masks {m = m} (enqueue env p queued fills) = imperator_enqueue_masks k c env m.world p
  Step_masks {m = m} (dispatch env honest) = imperator_dispatch_masks c env m.world
  Step_masks {m = m} (leave queued less) = refl
  Step_masks {m = m} (running cpu now p) =
      (imperator_running-SameLlcs c cpu now p m.world).same_masks
  Step_masks {m = m} (tick env p) = (imperator_tick-SameLlcs k c env p m.world).same_masks
  Step_masks {m = m} (stopping runnable cpu now now' p) =
      (imperator_stopping-SameLlcs c runnable cpu now now' p m.world).same_masks
  Step_masks {m = m} (probe {f = f} current is) = (on_current-SameLlcs f current m.world).same_masks

  -- At every point of a run, the mask of an LLC has the bit of a CPU exactly if the configuration puts
  -- the CPU into the LLC.
  pub Reaches-MasksOf : {m : Machine} → Reaches k c m → MasksOf c m
  Reaches-MasksOf (started {m = m} create clear ok) = started-MasksOf m create clear
  Reaches-MasksOf (then_step {m = m} {m' = m'} run step) =
      same-MasksOf c m m' (Step_masks step) (Reaches-MasksOf run)

-- At most one kick, of a CPU that the configuration puts into the LLC.
pub data KicksMember (k : Kernel) (c : Rodata) (llc : ℕ) : List Call → Type 0 where
  one_kick :
      (cpu : ℕ)
      → is_member c (llc_idx llc) cpu ≡ true
      → KicksMember k c llc (kick_cpu cpu k.kick_preempt ∷ [])
  no_kick : KicksMember k c llc []

Picks-KicksMember :
    (k : Kernel) (c : Rodata) (m : Machine) (llc : ℕ) {cs : List Call}
    → MasksOf c m
    → Picks k m.world llc cs
    → KicksMember k c llc cs
unfolding MasksOf
Picks-KicksMember k c m llc of_c (bulk cpu small h) =
    one_kick cpu (sym (of_c (llc_idx llc) cpu) ∙ runs_in-llc m.world llc 3 cpu h)
Picks-KicksMember k c m llc of_c (frame cpu small none_there h) =
    one_kick cpu (sym (of_c (llc_idx llc) cpu) ∙ runs_in-llc m.world llc 2 cpu h)
Picks-KicksMember k c m llc of_c (nobody a b) = no_kick

-- At every point of a run, a task of T0 or T1 that is queued kicks at most one CPU, and one that the
-- configuration puts into the LLC of the queue, if the masks of the tiers fit their words.
pub Reaches-KicksMember :
    (k : Kernel) (c : Rodata) {m : Machine} (llc tier : ℕ)
    → Reaches k c m
    → tier ≤ 1
    → m.world.tier_cpu_mask 3 < 2 ^ 64
    → m.world.tier_cpu_mask 2 < 2 ^ 64
    → KicksMember k c llc (kick_victim k m.world llc tier)
Reaches-KicksMember k c {m = m} llc tier run urgent fits3 fits2 =
    Picks-KicksMember k c m llc (Reaches-MasksOf k c run)
      ((kick_victim_lem m.world llc k tier fits3 fits2).0 urgent)

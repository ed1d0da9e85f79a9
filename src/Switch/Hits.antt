-- ===== src/Switch/Hits.antt =====
-- The kick of imperator_enqueue and the CPU masks of imperator_running and imperator_stopping: who is
-- really displaced.
use scx_imperator.Common.{ℕ, ◌≤◌, ◌<◌, ◌≡◌, ◌∙◌, sym, true, List, [], ◌∷◌}
use scx_imperator.State.{Rodata, World, Kernel, Call, kick_cpu}
use scx_imperator.Enqueue.Kick.{kick_victim}
use scx_imperator.Enqueue.Kick.Victim.{
  Picks, bulk, frame, nobody, kick_victim_lem, runs_in-test_bit,
}
use scx_imperator.Switch.Masks.{Running, runs_tier, Switches, MasksExact, Switches-MasksExact}

-- The calls displace nothing but a bulk task or a frame task that is running.
pub data Displaces (k : Kernel) (r : Running) : List Call → Type 0 where
  bulk_task :
      (cpu : ℕ)
      → cpu < 64
      → runs_tier r cpu 3 ≡ true
      → Displaces k r (kick_cpu cpu k.kick_preempt ∷ [])
  frame_task :
      (cpu : ℕ)
      → cpu < 64
      → runs_tier r cpu 2 ≡ true
      → Displaces k r (kick_cpu cpu k.kick_preempt ∷ [])
  nothing : Displaces k r []

Picks-Displaces :
    (k : Kernel) (w : World) (llc : ℕ) (r : Running) {cs : List Call}
    → MasksExact w r
    → Picks k w llc cs
    → Displaces k r cs
Picks-Displaces k w llc r m (bulk cpu small h) =
    bulk_task cpu small (sym (m.exact 3 cpu small) ∙ runs_in-test_bit w llc 3 cpu h)
Picks-Displaces k w llc r m (frame cpu small none_there h) =
    frame_task cpu small (sym (m.exact 2 cpu small) ∙ runs_in-test_bit w llc 2 cpu h)
Picks-Displaces k w llc r m (nobody a b) = nothing

-- After any run of context switches, a task of T0 or T1 that is queued displaces nothing but a task
-- of T3 or T2 that is running on the CPU that is kicked.
pub kick_victim-Displaces :
    (c : Rodata) (k : Kernel) (w : World) (r : Running) (llc tier : ℕ)
    → Switches c w r
    → tier ≤ 1
    → Displaces k r (kick_victim k w llc tier)
kick_victim-Displaces c k w r llc tier reached urgent =
    let m = Switches-MasksExact c w r reached in
    Picks-Displaces k w llc r m ((kick_victim_lem w llc k tier (m.fits 3) (m.fits 2)).0 urgent)

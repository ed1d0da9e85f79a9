-- ===== src/System/Kicks.antt =====
-- The kick of imperator_enqueue at any point of a run with context switches: who is displaced.
use scx_imperator.Common.{
  ℕ, ◌+◌, ◌^◌, ◌≤◌, ◌<◌, ◌≡◌, ◌∙◌, sym, arith, Bool, true, false, ◌&&◌, some, List, [], ◌∷◌, has,
  bit_or,
}
use scx_imperator.Intf.{
  llc_idx, has_flag, irq_wake, mbox_valid_flag, mbox_get_tier, get_tier, cpu_idx, llc_dsq_base,
}
use scx_imperator.State.{TaskCtx, Rodata, World, Kernel, Call, kick_cpu, dsq_insert_vtime}
use scx_imperator.Deadline.{tier_deadline}
use scx_imperator.Init.Laws.{is_member}
use scx_imperator.Switch.Masks.{runs_tier}
use scx_imperator.Enqueue.{EnqEnv, enq_llc, advance, stages, imperator_enqueue}
use scx_imperator.Enqueue.Boost.Policy.{policy}
use scx_imperator.Enqueue.Kick.{kick_victim}
use scx_imperator.Enqueue.Kick.Victim.{
  Picks, AbsentIn, runs_in, bulk, frame, nobody, kick_victim_lem,
}
use scx_imperator.Enqueue.Queued.{imperator_enqueue_calls}
use scx_imperator.System.{Machine}
use scx_imperator.System.Members.{MasksOf, Reaches-MasksOf}
use scx_imperator.System.Runs.{Roster, Runs, NonzeroClock, Runs-Reaches}
use scx_imperator.System.Tiers.{tiers_of, RosterExact}
use scx_imperator.System.Exact.{Runs-IsIdle, Runs-RosterExact}

-- The CPU is configured into the LLC, and runs a task of the tier.
abbrev pub runs_here : Rodata → World → Roster → ℕ → ℕ → ℕ → Bool
runs_here c w r llc tier cpu = is_member c (llc_idx llc) cpu && runs_tier (tiers_of w r) cpu tier

-- No CPU of the LLC runs a task of the tier.
unfoldable pub NoneHere : Rodata → World → Roster → ℕ → ℕ → Type 0
NoneHere c w r llc tier = (cpu : ℕ) → cpu < 64 → runs_here c w r llc tier cpu ≡ false

-- Whom the calls displace: a bulk task in the LLC if there is one, or else a frame task if there is
-- one, or else nobody.
pub data Displaces (k : Kernel) (c : Rodata) (w : World) (r : Roster) (llc : ℕ)
    : List Call → Type 0 where
  bulk_task :
      (cpu : ℕ)
      → cpu < 64
      → runs_here c w r llc 3 cpu ≡ true
      → Displaces k c w r llc (kick_cpu cpu k.kick_preempt ∷ [])
  frame_task :
      (cpu : ℕ)
      → cpu < 64
      → NoneHere c w r llc 3
      → runs_here c w r llc 2 cpu ≡ true
      → Displaces k c w r llc (kick_cpu cpu k.kick_preempt ∷ [])
  no_task : NoneHere c w r llc 3 → NoneHere c w r llc 2 → Displaces k c w r llc []

-- By the masks a CPU is a member of the LLC and runs the tier exactly if it is and does.
runs_in-runs_here :
    (c : Rodata) (m : Machine) (r : Roster) (llc tier cpu : ℕ)
    → MasksOf c m
    → RosterExact m.world r
    → cpu < 64
    → runs_in m.world llc tier cpu ≡ runs_here c m.world r llc tier cpu
unfolding MasksOf runs_in
runs_in-runs_here c m r llc tier cpu of_c e small =
    let member = of_c (llc_idx llc) cpu in
    let runs = e.masks.exact tier cpu small in ground (arith, member, runs)

AbsentIn-NoneHere :
    (c : Rodata) (m : Machine) (r : Roster) (llc tier : ℕ)
    → MasksOf c m
    → RosterExact m.world r
    → AbsentIn m.world llc tier
    → NoneHere c m.world r llc tier
unfolding AbsentIn NoneHere
AbsentIn-NoneHere c m r llc tier of_c e away cpu small =
    sym (runs_in-runs_here c m r llc tier cpu of_c e small) ∙ away cpu

Picks-Displaces :
    (k : Kernel) (c : Rodata) (m : Machine) (r : Roster) (llc : ℕ) {cs : List Call}
    → MasksOf c m
    → RosterExact m.world r
    → Picks k m.world llc cs
    → Displaces k c m.world r llc cs
Picks-Displaces k c m r llc of_c e (bulk cpu small h) =
    bulk_task cpu small (sym (runs_in-runs_here c m r llc 3 cpu of_c e small) ∙ h)
Picks-Displaces k c m r llc of_c e (frame cpu small none_there h) =
    frame_task cpu small (AbsentIn-NoneHere c m r llc 3 of_c e none_there)
      (sym (runs_in-runs_here c m r llc 2 cpu of_c e small) ∙ h)
Picks-Displaces k c m r llc of_c e (nobody a b) =
    no_task (AbsentIn-NoneHere c m r llc 3 of_c e a) (AbsentIn-NoneHere c m r llc 2 of_c e b)

-- The tier that a woken or preempted task is queued at.
abbrev pub queue_tier : Kernel → EnqEnv → World → TaskCtx → ℕ
queue_tier k env w t =
    policy (has_flag irq_wake t.packed_info) (has env.enq_flags k.enq_wakeup)
      (has (w.mega_mailbox (cpu_idx env.cpu)).flags mbox_valid_flag)
      (mbox_get_tier (w.mega_mailbox (cpu_idx env.cpu)).flags) (get_tier t.packed_info)

-- With a base quantum of 64 bits, at every point of a run of all callbacks, probes and context
-- switches in which no task starts to run at a time whose low 32 bits are 0, and a task is prepared,
-- enabled, woken, queued and switched in only while no CPU runs it, on a CPU that runs none: a task
-- that has a context, and is queued with the flag of a wakeup or of a preemption, is put by the first
-- call into the queue of the LLC of its CPU, by the deadline of its tier after the boosts and the
-- advances of its flags. If that tier is T0 or T1, the other calls kick a CPU of that LLC that runs a
-- bulk task, or, only if no CPU there runs one, a CPU there that runs a frame task, or, only if none
-- runs either, nobody. If the tier is lower, there is no other call.
pub Runs-Displaces :
    (k : Kernel) (c : Rodata) {m : Machine} {r : Roster} (env : EnqEnv) (p : ℕ) (t : TaskCtx)
    → c.quantum_ns < 2 ^ 64
    → (runs : Runs k c m r) → NonzeroClock runs
    → m.world.tasks p ≡ some t
    → has env.enq_flags (bit_or k.enq_wakeup k.enq_preempt) ≡ true
    → let tier = queue_tier k env m.world t in
      let llc = enq_llc c env in
      (slice : ℕ) × (kicks : List Call) × ((imperator_enqueue k c env m.world p).calls
        ≡ dsq_insert_vtime p
            (llc_dsq_base + llc)
            slice
            (tier_deadline c env.now tier (advance c t.packed_info))
            env.enq_flags
          ∷ kicks)
      × (tier ≤ 1 → Displaces k c m.world r llc kicks)
      × (1 < tier → kicks ≡ [])
Runs-Displaces k c {m = m} {r = r} env p t fits runs clock here queued =
    let e = Runs-RosterExact k c fits runs clock in
    let llc = enq_llc c env in
    let tier = queue_tier k env m.world t in
    let v = kick_victim_lem m.world llc k tier (e.masks.fits 3) (e.masks.fits 2) in
    let of_c = Reaches-MasksOf k c (Runs-Reaches k c runs) in
    (
      (stages k c env m.world t).slice,
      kick_victim k m.world llc tier,
      imperator_enqueue_calls k c env m.world p t (Runs-IsIdle k c fits runs p t here) here queued,
      λ urgent. Picks-Displaces k c m r llc of_c e (v.0 urgent),
      v.1,
    )

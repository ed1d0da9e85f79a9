-- ===== src/Tests/Enqueue.antt =====
-- imperator_enqueue of src/bpf/imperator.bpf.c at concrete inputs.
use scx_imperator.Common.{
  ℕ, ◌+◌, ◌/◌, ◌≤◌, ◌<◌, ◌≡◌, ◌≢◌, ◌⊎◌, ◌∷◌, refl, subst, Bool-cases, inl, inr, ◌==◌, arith, has,
}
use scx_imperator.Intf.{
  get_tier, has_flag, irq_wake, mbox_valid_flag, mbox_get_tier, extract_avg_rt, extract_deficit,
}
use mathlib.Core.Option.{none-ne-some}
use scx_imperator.Task.{IsWf}
use scx_imperator.Task.Idle.{IsIdle, AllIdle}
use scx_imperator.Enqueue.{EnqEnv, enq_llc, imperator_enqueue}
use scx_imperator.Enqueue.Recovery.{
  recover_from_sleep, recover_from_sleep_lem, slept_ns, tier_sleep_mid,
}
use scx_imperator.Enqueue.Burst.{EnqState}
use scx_imperator.Enqueue.Boost.{boost}
use scx_imperator.Enqueue.Boost.Policy.{policy, Consumed, boost_lem}
use scx_imperator.Enqueue.Kick.{kick_victim}
use scx_imperator.Enqueue.Laws.{Inserts, imperator_enqueue-Inserts, tier_at}
use scx_imperator.Enqueue.Queued.{enqueue_woken, queued_call}
use scx_imperator.Tests.Data.{task, task-IsWf, kernel, rodata, world, no_stats}

-- CPU 3 wakes task 7, which was on CPU 2.
abbrev wakeup : EnqEnv
wakeup = record { cpu = 3; now = 5000000; task_cpu = 2; task_flags = 0; enq_flags = 1 }

task-IsIdle : IsIdle task
task-IsIdle = record { wf = task-IsWf; spent = refl }

world-AllIdle : AllIdle world
unfolding AllIdle
world-AllIdle q t h = elim (Bool-cases (7 == q)) [
  | inl e ↦ let same : task ≡ t = ground (arith, h) in subst IsIdle same task-IsIdle
  | inr e ↦ absurd (none-ne-some t (ground (arith, h)))
]

imperator_enqueue-Inserts_example :
    Inserts kernel rodata wakeup 7 (imperator_enqueue kernel rodata wakeup world 7)
imperator_enqueue-Inserts_example = imperator_enqueue-Inserts kernel rodata wakeup world 7

enqueue_woken_example :
    (imperator_enqueue kernel rodata wakeup world 7).calls
    ≡ queued_call kernel rodata wakeup world 7 task task-IsIdle 2000000
      ∷ kick_victim kernel world
          (enq_llc rodata wakeup)
          (tier_at kernel rodata wakeup world task task-IsIdle)
enqueue_woken_example = enqueue_woken kernel rodata wakeup world 7 task task-IsIdle refl refl refl

abbrev entering : ℕ → ℕ → EnqState
entering tier slice = record {
  task = record task { next_slice = slice };
  stats = no_stats;
  tier = tier;
  slice = slice;
}

recover_from_sleep_lem_example :
    let t = record task { sleep_entry_time = 1000 } in
    let t' = recover_from_sleep 900000000 t in
    (t'.sleep_entry_time ≡ 0)
    × (t.sleep_entry_time ≢ 0
        → 500000000 < slept_ns 900000000 t
        → extract_avg_rt t'.deficit_avg_fused
          ≡ (extract_avg_rt task.deficit_avg_fused + tier_sleep_mid (get_tier task.packed_info))
            / 2)
    × ((t.sleep_entry_time ≡ 0) ⊎ (slept_ns 900000000 t ≤ 500000000)
        → t'.deficit_avg_fused ≡ task.deficit_avg_fused)
    × (extract_deficit t'.deficit_avg_fused ≡ extract_deficit task.deficit_avg_fused)
    × (t'.packed_info ≡ task.packed_info)
recover_from_sleep_lem_example =
    recover_from_sleep_lem 900000000 (record task { sleep_entry_time = 1000 })
      (ground (arith, task-IsWf))

boost_lem_example :
    let s' = boost kernel rodata 1 0x80 (entering 3 2000000) in
    (s'.tier
      ≡ policy
          (has_flag irq_wake task.packed_info)
          (has 1 1)
          (has 0x80 mbox_valid_flag)
          (mbox_get_tier 0x80)
          3)
    × (s'.slice ≡ 2000000)
    × Consumed task.packed_info s'.task.packed_info
    × IsWf s'.task
boost_lem_example =
    boost_lem kernel rodata 1 0x80 (entering 3 2000000) (ground (arith, task-IsWf)) (omega arith)

-- ===== src/Tests/Runs.antt =====
-- A run of src/bpf/imperator.bpf.c with context switches, at concrete inputs: a bulk task runs on CPU
-- 5, and a task of T0 is queued for the LLC of that CPU.
use scx_imperator.Common.{
  ◌+◌, ◌^◌, ℕ, ◌≡◌, ◌≤◌, ◌<◌, true, none, some, update, arith, refl, List, [], ◌∷◌, pos,
}
use scx_imperator.Intf.{pack_deficit_avg, llc_dsq_base, get_tier, extract_avg_rt}
use scx_imperator.Reclassify.{classify}
use scx_imperator.Task.InitTask.{imperator_init_task}
use scx_imperator.Task.InitTask.Order.{imperator_enable-init_task}
use scx_imperator.State.{TaskCtx, Call, dsq_insert_vtime}
use scx_imperator.Task.Alloc.{
  imperator_enable, alloc_task_ctx_cold, get_task_ctx, store_new, slow_path, init_deficit,
  init_packed, seed_tier, seed_avg_rt,
}
use scx_imperator.Init.{imperator_init}
use scx_imperator.Switch.{imperator_running, run_by, run_ctx, stamp_run}
use scx_imperator.Deadline.{tier_deadline}
use scx_imperator.Enqueue.{enq_llc, advance, imperator_enqueue}
use scx_imperator.System.{Machine, enable}
use scx_imperator.System.Runs.{Roster, Rests, IsBetween, Runs, NonzeroClock, between, run}
use scx_imperator.System.Tiers.{RosterExact}
use scx_imperator.System.Exact.{Runs-RosterExact}
use scx_imperator.System.Kicks.{Displaces, queue_tier, Runs-Displaces}
use scx_imperator.Tests.Data.{kernel, two}
use scx_imperator.Tests.System.{empty, booted, empty-IsClear, created_all, woken}

-- Task 8 has a nice value of 15, and task 7 one of -10.
abbrev bulk_enabled : Machine
bulk_enabled = record booted { world = imperator_enable two true 135 8 booted.world }

abbrev both_enabled : Machine
both_enabled = record bulk_enabled { world = imperator_enable two true 110 7 bulk_enabled.world }

abbrev bulk_runs : Machine
bulk_runs = record both_enabled { world = imperator_running two 5 9000 8 both_enabled.world }

abbrev roster : Roster
roster = update (λ _. none) 5 (some 8)

all_rest : (p : ℕ) → Rests (λ _. none) p
unfolding Rests
all_rest p cpu at = ground (arith, at)

runs : Runs kernel two bulk_runs roster
unfolding IsBetween
runs =
    run 5 9000 8
      (between
        (between (Runs.booted {m = empty} (λ _. pos 0) empty-IsClear (λ tier. refl) created_all)
          (enable true 135 8) (all_rest 8))
        (enable true 110 7) (all_rest 7))
      (omega arith) refl (all_rest 8)

clock : NonzeroClock runs
unfolding runs NonzeroClock
clock = (omega arith, tt)

Runs-RosterExact_example : RosterExact bulk_runs.world roster
Runs-RosterExact_example = Runs-RosterExact kernel two (omega arith) runs clock

-- Task 7 as imperator_enable leaves it.
abbrev urgent : TaskCtx
urgent = record {
  next_slice = 2000000;
  deficit_avg_fused = pack_deficit_avg 9765 50;
  packed_info = 2 ^ 24;
  last_run_at = 0;
  reclass_counter = 0;
  overrun_count = 0;
  lock_skip_count = 0;
  pending_futex_op = 255;
  align_pad = 0;
  enqueue_time = 0;
  jitter_ewma_us = 0;
  burst_credit = 0;
  sleep_entry_time = 0;
  burst_acc_us = 0;
}

there : bulk_runs.world.tasks 7 ≡ some urgent
unfolding imperator_running run_by run_ctx stamp_run imperator_enable get_task_ctx slow_path
    store_new alloc_task_ctx_cold init_deficit init_packed seed_tier seed_avg_rt imperator_init
there = refl

no_child : bulk_runs.world.tasks 9 ≡ none
unfolding imperator_running run_by run_ctx stamp_run imperator_enable get_task_ctx slow_path
    store_new alloc_task_ctx_cold init_deficit init_packed seed_tier seed_avg_rt imperator_init
no_child = refl

Runs-Displaces_example :
    let tier = queue_tier kernel woken bulk_runs.world urgent in
    let llc = enq_llc two woken in
    (slice : ℕ) × (kicks : List Call) × ((imperator_enqueue kernel two woken bulk_runs.world
        7).calls
      ≡ dsq_insert_vtime 7
          (llc_dsq_base + llc)
          slice
          (tier_deadline two woken.now tier (advance two urgent.packed_info))
          woken.enq_flags
        ∷ kicks)
    × (tier ≤ 1 → Displaces kernel two bulk_runs.world roster llc kicks)
    × (1 < tier → kicks ≡ [])
Runs-Displaces_example =
    Runs-Displaces kernel two woken 7 urgent (omega arith) runs clock there refl

-- Task 9 is forked by task 8 and enabled after it.
imperator_enable-init_task_example :
    let w' =
      imperator_enable two true 120 9
        (imperator_init_task two true 120 9 (some 8) bulk_runs.world) in
    (w' ≡ imperator_enable two true 120 9 bulk_runs.world)
    × (t : TaskCtx) × (w'.tasks 9 ≡ some t)
    × (get_tier t.packed_info ≡ seed_tier 120)
    × (classify (get_tier t.packed_info) (extract_avg_rt t.deficit_avg_fused) ≡ seed_tier 120)
imperator_enable-init_task_example =
    imperator_enable-init_task two true 120 9 (some 8) bulk_runs.world (omega arith) no_child

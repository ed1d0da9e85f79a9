-- ===== src/Tests/Counters.antt =====
-- A run of src/bpf/imperator.bpf.c at concrete inputs: a task of T0 runs on CPU 5 past its slice and its
-- starvation threshold, with another task waiting, is preempted, and is queued again.
use scx_imperator.Common.{◌^◌, ◌≡◌, true, some, inl, pos, arith, refl, subst}
use scx_imperator.Intf.{pack_deficit_avg, get_tier, cake_tier_idx}
use scx_imperator.Intf.Packed.{get_tier-arith}
use scx_imperator.Intf.Fused.{unpack-pack_config}
use scx_imperator.State.{TaskCtx}
use scx_imperator.State.Counters.{ReadsZero, AllReadZero}
use scx_imperator.Task.Alloc.{
  imperator_enable, alloc_task_ctx_cold, get_task_ctx, store_new, slow_path, init_deficit,
  init_packed, seed_tier, seed_avg_rt,
}
use scx_imperator.Init.{imperator_init}
use scx_imperator.Switch.{imperator_running, run_by, run_ctx, stamp_run}
use scx_imperator.Tick.{Env, imperator_tick}
use scx_imperator.Tick.Unreached.{IsWithin}
use scx_imperator.Enqueue.{imperator_enqueue}
use scx_imperator.System.{Machine, Reaches, enable, running, tick, enqueue, started, then_step}
use scx_imperator.System.Counters.{IsUsual, AllUsual, Reaches-AllReadZero}
use scx_imperator.Tests.Data.{kernel, two, no_stats}
use scx_imperator.Tests.System.{
  enabled, woken, one_waits, fills, booted, empty, empty-IsClear, created_all,
}

abbrev runs : Machine
runs = record enabled { world = imperator_running two 5 9000 7 enabled.world }

-- At 5 ms, with a second task on the run queue that waits for the CPU.
abbrev late : Env
late = record {
  cpu = 5;
  now = 5000000;
  nr_queued = λ _. 1;
  nr_running = some 2;
  cpuperf_cap = 1024;
}

abbrev ticked : Machine
ticked = record runs { world = (imperator_tick kernel two late 7 runs.world).world }

abbrev queued : Machine
queued = record {
  world = (imperator_enqueue kernel two woken ticked.world 7).world;
  queued = one_waits;
}

start : Reaches kernel two booted
start = started {m = empty} (λ _. pos 0) empty-IsClear created_all

whole_run : Reaches kernel two queued
whole_run =
    then_step
      (then_step (then_step (then_step start (enable true 110 7)) (running 5 9000 7)) (tick late 7))
      (enqueue woken 7 one_waits (fills ticked.world))

-- The task at the tick.
abbrev urgent : TaskCtx
urgent = record {
  next_slice = 2000000;
  deficit_avg_fused = pack_deficit_avg 9765 50;
  packed_info = 2 ^ 24;
  last_run_at = 9000;
  reclass_counter = 0;
  overrun_count = 0;
  lock_skip_count = 0;
  pending_futex_op = 255;
  align_pad = 0;
  enqueue_time = 0;
  jitter_ewma_us = 0;
  burst_credit = 0;
  sleep_entry_time = 0;
  burst_acc_us = 0;
}

there : runs.world.tasks 7 ≡ some urgent
unfolding imperator_running run_by run_ctx stamp_run imperator_enable get_task_ctx slow_path
    store_new alloc_task_ctx_cold init_deficit init_packed seed_tier seed_avg_rt imperator_init
there = refl

urgent-IsWithin : IsWithin two urgent
unfolding cake_tier_idx
urgent-IsWithin =
    let t : get_tier (2 ^ 24) ≡ 0 = omega (arith, get_tier-arith (2 ^ 24) (omega arith)) in
    rw t (omega (arith, unpack-pack_config 1953 512 2929 (omega arith) (omega arith) (omega arith)))

found-IsWithin : (t : TaskCtx) → runs.world.tasks 7 ≡ some t → IsWithin two t
found-IsWithin t h =
    let found = there in
    let same : urgent ≡ t = ground (arith, found, h) in
    subst (λ x. IsWithin two x) same urgent-IsWithin

zeros : ReadsZero no_stats
zeros = record { preempts = λ tier. refl; skips = refl; earned = refl; consumed = refl }

usual : AllUsual whole_run
unfolding whole_run start AllUsual IsUsual AllReadZero
usual = (refl, ((found-IsWithin, λ h. inl (omega arith)), (tt, (tt, λ cpu. zeros))))

Reaches-AllReadZero_example : AllReadZero queued.world
Reaches-AllReadZero_example = Reaches-AllReadZero kernel two (omega arith) whole_run usual

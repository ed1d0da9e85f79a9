-- ===== src/Tests/Data.antt =====
-- A task, a CPU and a configuration of src/bpf/imperator.bpf.c to run the models on.
use scx_imperator.Common.{◌+◌, ◌*◌, ◌^◌, true, false, some, none, ◌==◌, ltb, if◌then◌else◌, arith}
use scx_imperator.State.{TaskCtx, Mailbox, Stats, Rodata, World, Kernel, default_rodata}
use scx_imperator.Task.{IsWf}

abbrev pub kernel : Kernel
kernel = record {
  enq_wakeup = 1;
  enq_preempt = 2 ^ 32;
  wake_sync = 16;
  pf_kthread = 0x200000;
  kick_preempt = 2;
  cpuperf_one = 1024;
  dsq_local = 2 ^ 63 + 2;
  dsq_local_on = 2 ^ 63 + 2 ^ 62;
}

abbrev pub rodata : Rodata
rodata = default_rodata

-- Two LLCs of four CPUs each; the first two CPUs are P-cores that share a core, and the third is
-- one on its own.
abbrev pub two : Rodata
two = record default_rodata {
  nr_llcs = 2;
  has_hybrid = true;
  big_cpu_mask = 7;
  cpu_llc_id = λ cpu. if ltb cpu 4 then 0 else 1;
  cpu_core_id = λ cpu. if ltb cpu 2 then 0 else cpu;
  core_cpu_mask = λ core. if core == 0 then 3 else 2 ^ core;
}

-- A task of T1 with an average of 1050, stamped at 1000.
abbrev pub task : TaskCtx
task = record {
  next_slice = 2000000;
  deficit_avg_fused = 1050 * 2 ^ 16 + 9765;
  packed_info = 2 ^ 28;
  last_run_at = 1000;
  reclass_counter = 0;
  overrun_count = 0;
  lock_skip_count = 0;
  pending_futex_op = 255;
  align_pad = 0;
  enqueue_time = 0;
  jitter_ewma_us = 0;
  burst_credit = 0;
  sleep_entry_time = 0;
  burst_acc_us = 0;
}

pub task-IsWf : IsWf task
task-IsWf = ground arith

-- The same with the lock-holder flag.
abbrev pub holder : TaskCtx
holder = record task { packed_info = 2 ^ 28 + 2 ^ 25 }

pub holder-IsWf : IsWf holder
holder-IsWf = ground arith

abbrev pub no_stats : Stats
no_stats = record {
  nr_new_flow_dispatches = 0;
  nr_old_flow_dispatches = 0;
  nr_tier_dispatches = λ _. 0;
  nr_starvation_preempts_tier = λ _. 0;
  nr_lock_holder_skips = 0;
  nr_irq_wake_boosts = 0;
  nr_waker_tier_boosts = 0;
  nr_preempt_with_credit = 0;
  nr_burst_credit_consumed = 0;
  nr_jitter_ewma_sum = 0;
  nr_jitter_ewma_count = 0;
}

abbrev pub mailbox : Mailbox
mailbox = record { flags = 0x80; dsq_hint = 0; tick_counter = 0 }

-- Task 7 alone has a context; CPU 3 runs a bulk task.
abbrev pub world : World
world = record {
  tasks = λ q. if 7 == q then some task else none;
  llc_cpu_mask = λ _. 255;
  mega_mailbox = λ _. mailbox;
  llc_nonempty = λ _. 0;
  tier_cpu_mask = λ tier. if tier == 3 then 8 else 0;
  dummy_idle = λ _. false;
  global_stats = λ _. no_stats;
  llc_etd_cost = λ _ _. 0;
}

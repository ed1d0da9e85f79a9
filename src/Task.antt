-- ===== src/Task.antt =====
-- src/bpf/intf.h: the well-formedness of a task context: every field within its width, and the skip counter within
-- its cap.
pub mod Alloc
pub mod InitTask
pub mod Idle
pub mod Frame
use scx_imperator.Common.{ℕ, ◌^◌, ◌≤◌, ◌<◌}
use scx_imperator.State.{TaskCtx}

pub record IsWf (t : TaskCtx) : Type 0 where
  pub slice_fits : t.next_slice < 2 ^ 64
  pub fused_fits : t.deficit_avg_fused < 2 ^ 32
  pub packed_fits : t.packed_info < 2 ^ 32
  pub run_fits : t.last_run_at < 2 ^ 32
  pub counter_fits : t.reclass_counter < 2 ^ 16
  pub history_fits : t.overrun_count < 2 ^ 8
  pub skips_capped : t.lock_skip_count ≤ 4
  pub op_fits : t.pending_futex_op < 2 ^ 8
  pub enqueue_fits : t.enqueue_time < 2 ^ 32
  pub jitter_fits : t.jitter_ewma_us < 2 ^ 16
  pub credit_fits : t.burst_credit < 2 ^ 16
  pub sleep_fits : t.sleep_entry_time < 2 ^ 32
  pub acc_fits : t.burst_acc_us < 2 ^ 16

-- ===== src/Tests/Rest.antt =====
-- Allocation, exec and fork of src/bpf/imperator.bpf.c, and the futex probes of src/bpf/lock.bpf.c, at
-- concrete inputs.
use scx_imperator.Common.{pos, negsuc, ◌≡◌, true, false, List, [], ◌∷◌, some, arith}
use scx_imperator.Intf.{
  flow_new, lock_holder, irq_wake, get_tier, has_flag, extract_avg_rt, cake_futex_op_unset,
}
use scx_imperator.State.{TaskCtx}
use scx_imperator.Task.{IsWf}
use scx_imperator.Reclassify.{classify}
use scx_imperator.Task.Alloc.{alloc_task_ctx_cold, seed_tier}
use scx_imperator.Task.Alloc.Laws.{alloc_task_ctx_cold_lem}
use scx_imperator.Lock.{
  futex_lock_pi, futex_wake, futex_wait, imperator_tp_enter_futex, imperator_tp_exit_futex,
}
use scx_imperator.Lock.Paths.{fexit, op_word, imperator_tp_exit_futex-fexit}
use scx_imperator.Lock.History.{FutexCall, trace, held, SameButLock, trace_lem}
use scx_imperator.Tests.Data.{task, task-IsWf, rodata}

alloc_task_ctx_cold_lem_example :
    (t : TaskCtx) × (alloc_task_ctx_cold rodata true 100 ≡ some t)
    × IsWf t
    × (get_tier t.packed_info ≡ seed_tier 100)
    × (classify (get_tier t.packed_info) (extract_avg_rt t.deficit_avg_fused) ≡ seed_tier 100)
    × (has_flag flow_new t.packed_info ≡ true)
    × (has_flag lock_holder t.packed_info ≡ false)
    × (has_flag irq_wake t.packed_info ≡ false)
    × (t.pending_futex_op ≡ cake_futex_op_unset)
alloc_task_ctx_cold_lem_example = alloc_task_ctx_cold_lem rodata 100 (omega arith)

-- A private FUTEX_LOCK_PI that succeeds.
imperator_tp_exit_futex-fexit_example :
    imperator_tp_exit_futex (pos 0) (imperator_tp_enter_futex (op_word futex_lock_pi 1 0) task)
    ≡ record (fexit futex_lock_pi (pos 0) task) { pending_futex_op = cake_futex_op_unset }
imperator_tp_exit_futex-fexit_example =
    imperator_tp_exit_futex-fexit futex_lock_pi 1 0 (pos 0) task (omega arith) (omega arith)

-- A wait that gets the lock, a wake that fails, and one that wakes nobody.
abbrev futex_calls : List FutexCall
futex_calls =
    record { op = futex_wait; ret = pos 0 }
    ∷ record { op = futex_wake; ret = negsuc 21 }
    ∷ record { op = futex_wake; ret = pos 0 }
    ∷ []

trace_lem_example :
    let t' = trace futex_calls task in
    (has_flag lock_holder t'.packed_info ≡ held futex_calls (has_flag lock_holder task.packed_info))
    × IsWf t'
    × SameButLock task t'
trace_lem_example = trace_lem futex_calls task task-IsWf

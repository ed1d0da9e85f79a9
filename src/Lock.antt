-- ===== src/Lock.antt =====
-- src/bpf/lock.bpf.c: the lock-holder flag, kept by the fexit probes, or by the tracepoints where
-- the probes cannot be attached. A callback Works on the current task, which the kernel names.
pub mod Paths
pub mod History
pub mod Contexts
pub mod Onward
use scx_imperator.Common.{
  ℤ, is_zero, is_nonneg, ℕ, ◌+◌, ◌-◌, ◌%◌, ◌^◌, Bool, true, false, ◌||◌, Option, none, some,
  bit_and, ◌==◌, if◌then◌else◌, u8, update, not_u32,
}
use scx_imperator.Intf.{lock_holder, set_flag, clear_flag, cake_futex_op_unset}
use scx_imperator.State.{TaskCtx, World, set_task}

-- A change of the current task's context, if there is a current task and it has one.
pub on_current : Option ℕ → (TaskCtx → TaskCtx) → World → World
on_current none f w = w
on_current (some p) f w = elim (w.tasks p) [ none ↦ w | some t ↦ set_task w p (f t) ]

pub set_lock_holder : TaskCtx → TaskCtx
set_lock_holder t = record t { packed_info = set_flag lock_holder t.packed_info }

pub clear_lock_holder : TaskCtx → TaskCtx
clear_lock_holder t = record t {
  packed_info = clear_flag lock_holder t.packed_info;
  lock_skip_count = 0;
}

-- The fexit probes, by the return value of the traced function.
pub imperator_fexit_futex_wait : ℤ → TaskCtx → TaskCtx
imperator_fexit_futex_wait ret t = if is_zero ret then set_lock_holder t else t

pub imperator_fexit_futex_wait_requeue_pi : ℤ → TaskCtx → TaskCtx
imperator_fexit_futex_wait_requeue_pi ret t = if is_zero ret then set_lock_holder t else t

pub imperator_fexit_futex_lock_pi : ℤ → TaskCtx → TaskCtx
imperator_fexit_futex_lock_pi ret t = if is_zero ret then set_lock_holder t else t

pub imperator_fexit_futex_trylock_pi : ℤ → TaskCtx → TaskCtx
imperator_fexit_futex_trylock_pi ret t = if is_zero ret then set_lock_holder t else t

pub imperator_fexit_futex_wake : ℤ → TaskCtx → TaskCtx
imperator_fexit_futex_wake ret t = if is_nonneg ret then clear_lock_holder t else t

pub imperator_fexit_futex_wake_op : ℤ → TaskCtx → TaskCtx
imperator_fexit_futex_wake_op ret t = if is_nonneg ret then clear_lock_holder t else t

pub imperator_fexit_futex_unlock_pi : ℤ → TaskCtx → TaskCtx
imperator_fexit_futex_unlock_pi ret t = if is_zero ret then clear_lock_holder t else t

-- The futex commands, with their numbers.
pub data FutexOp : Type 0 where
  futex_wait futex_wake futex_wake_op futex_lock_pi futex_unlock_pi futex_trylock_pi : FutexOp
  futex_wait_bitset futex_wake_bitset futex_wait_requeue_pi futex_lock_pi2 : FutexOp

abbrev pub op_code : FutexOp → ℕ
op_code futex_wait = 0
op_code futex_wake = 1
op_code futex_wake_op = 5
op_code futex_lock_pi = 6
op_code futex_unlock_pi = 7
op_code futex_trylock_pi = 8
op_code futex_wait_bitset = 9
op_code futex_wake_bitset = 10
op_code futex_wait_requeue_pi = 11
op_code futex_lock_pi2 = 13

-- The tracepoint at the entry; `op` is the word of `ctx->op`.
pub imperator_tp_enter_futex : ℕ → TaskCtx → TaskCtx
imperator_tp_enter_futex op t = record t { pending_futex_op = u8 op }

-- `(int)(tctx->pending_futex_op) & CAKE_FUTEX_CMD_MASK`
pub futex_cmd : ℕ → ℕ
futex_cmd pending = bit_and pending (not_u32 (128 + 256))

pub exit_switch : ℕ → ℤ → TaskCtx → TaskCtx
exit_switch cmd ret t =
    if (cmd == 0) || (cmd == 9) || (cmd == 11)
    then (if is_zero ret then set_lock_holder t else t)
    else if (cmd == 1) || (cmd == 10) || (cmd == 5)
    then (if is_nonneg ret then clear_lock_holder t else t)
    else if (cmd == 6) || (cmd == 13) || (cmd == 8)
    then (if is_zero ret then set_lock_holder t else t)
    else if cmd == 7
    then (if is_zero ret then clear_lock_holder t else t)
    else t

pub imperator_tp_exit_futex : ℤ → TaskCtx → TaskCtx
imperator_tp_exit_futex ret t =
    let t' = exit_switch (futex_cmd t.pending_futex_op) ret t in
    if t.pending_futex_op == cake_futex_op_unset
    then t
    else record t' { pending_futex_op = cake_futex_op_unset }

pub imperator_tp_exit_futex_wait : ℤ → TaskCtx → TaskCtx
imperator_tp_exit_futex_wait ret t = if is_zero ret then set_lock_holder t else t

pub imperator_tp_exit_futex_wake : ℤ → TaskCtx → TaskCtx
imperator_tp_exit_futex_wake ret t = if is_nonneg ret then clear_lock_holder t else t

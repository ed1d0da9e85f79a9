-- ===== src/Lock/Contexts.antt =====
-- The contexts over the probes of src/bpf/lock.bpf.c.
use scx_imperator.Common.{
  ℤ, is_zero, is_nonneg, ℕ, ◌^◌, ◌<◌, ◌≡◌, refl, arith, Bool, Option, some, none, update,
  if◌then◌else◌,
}
use scx_imperator.Intf.{lock_holder}
use scx_imperator.Intf.Laws.{set_flag-lt, clear_flag-lt}
use scx_imperator.State.{SameLlcs, TaskCtx, World}
use scx_imperator.Task.Idle.{IsIdle, AllIdle, same-AllIdle, set-AllIdle}
use scx_imperator.Lock.{
  on_current, set_lock_holder, clear_lock_holder, imperator_fexit_futex_wait,
  imperator_fexit_futex_wait_requeue_pi, imperator_fexit_futex_lock_pi,
  imperator_fexit_futex_trylock_pi, imperator_fexit_futex_wake, imperator_fexit_futex_wake_op,
  imperator_fexit_futex_unlock_pi, imperator_tp_enter_futex, exit_switch, futex_cmd,
  imperator_tp_exit_futex, imperator_tp_exit_futex_wait, imperator_tp_exit_futex_wake,
}

-- What the probes and the tracepoints do to the current task's context.
pub data IsProbe : (TaskCtx → TaskCtx) → Type 0 where
  fexit_futex_wait : (ret : ℤ) → IsProbe (imperator_fexit_futex_wait ret)
  fexit_futex_wait_requeue_pi : (ret : ℤ) → IsProbe (imperator_fexit_futex_wait_requeue_pi ret)
  fexit_futex_lock_pi : (ret : ℤ) → IsProbe (imperator_fexit_futex_lock_pi ret)
  fexit_futex_trylock_pi : (ret : ℤ) → IsProbe (imperator_fexit_futex_trylock_pi ret)
  fexit_futex_wake : (ret : ℤ) → IsProbe (imperator_fexit_futex_wake ret)
  fexit_futex_wake_op : (ret : ℤ) → IsProbe (imperator_fexit_futex_wake_op ret)
  fexit_futex_unlock_pi : (ret : ℤ) → IsProbe (imperator_fexit_futex_unlock_pi ret)
  tp_enter_futex : (op : ℕ) → IsProbe (imperator_tp_enter_futex op)
  tp_exit_futex : (ret : ℤ) → IsProbe (imperator_tp_exit_futex ret)
  tp_exit_futex_wait : (ret : ℤ) → IsProbe (imperator_tp_exit_futex_wait ret)
  tp_exit_futex_wake : (ret : ℤ) → IsProbe (imperator_tp_exit_futex_wake ret)

set-IsIdle : (t : TaskCtx) → IsIdle t → IsIdle (set_lock_holder t)
unfolding set_lock_holder
set-IsIdle t idle =
    let wf = idle.wf in
    let spent = idle.spent in ground (arith, set_flag-lt lock_holder t.packed_info wf.packed_fits)

clear-IsIdle : (t : TaskCtx) → IsIdle t → IsIdle (clear_lock_holder t)
unfolding clear_lock_holder
clear-IsIdle t idle =
    let wf = idle.wf in
    let spent = idle.spent in ground (arith, clear_flag-lt lock_holder t.packed_info wf.packed_fits)

choice-IsIdle : (b : Bool) (t u : TaskCtx) → IsIdle t → IsIdle u → IsIdle (if b then u else t)
choice-IsIdle b t u ht hu = ground arith

taken-IsIdle : (b : Bool) (t : TaskCtx) → IsIdle t → IsIdle (if b then set_lock_holder t else t)
taken-IsIdle b t idle = choice-IsIdle b t (set_lock_holder t) idle (set-IsIdle t idle)

freed-IsIdle : (b : Bool) (t : TaskCtx) → IsIdle t → IsIdle (if b then clear_lock_holder t else t)
freed-IsIdle b t idle = choice-IsIdle b t (clear_lock_holder t) idle (clear-IsIdle t idle)

switch-IsIdle : (cmd : ℕ) (ret : ℤ) (t : TaskCtx) → IsIdle t → IsIdle (exit_switch cmd ret t)
unfolding exit_switch
switch-IsIdle cmd ret t idle = ground (
  arith,
  taken-IsIdle (is_zero ret) t idle,
  freed-IsIdle (is_zero ret) t idle,
  freed-IsIdle (is_nonneg ret) t idle,
)

op-IsIdle :
    (op : ℕ) (t : TaskCtx) → op < 2 ^ 8 → IsIdle t → IsIdle (record t { pending_futex_op = op })
op-IsIdle op t fits idle = let wf = idle.wf in let spent = idle.spent in ground arith

exit-IsIdle : (ret : ℤ) (t : TaskCtx) → IsIdle t → IsIdle (imperator_tp_exit_futex ret t)
unfolding imperator_tp_exit_futex
exit-IsIdle ret t idle =
    let t' = exit_switch (futex_cmd t.pending_futex_op) ret t in
    let after =
      op-IsIdle 0xff t' (omega arith) (switch-IsIdle (futex_cmd t.pending_futex_op) ret t idle) in
    ground arith

probe-IsIdle : {f : TaskCtx → TaskCtx} → IsProbe f → (t : TaskCtx) → IsIdle t → IsIdle (f t)
unfolding imperator_fexit_futex_wait imperator_fexit_futex_wait_requeue_pi
    imperator_fexit_futex_lock_pi imperator_fexit_futex_trylock_pi imperator_fexit_futex_wake
    imperator_fexit_futex_wake_op imperator_fexit_futex_unlock_pi imperator_tp_enter_futex
    imperator_tp_exit_futex_wait imperator_tp_exit_futex_wake
probe-IsIdle (fexit_futex_wait ret) t idle = taken-IsIdle (is_zero ret) t idle
probe-IsIdle (fexit_futex_wait_requeue_pi ret) t idle = taken-IsIdle (is_zero ret) t idle
probe-IsIdle (fexit_futex_lock_pi ret) t idle = taken-IsIdle (is_zero ret) t idle
probe-IsIdle (fexit_futex_trylock_pi ret) t idle = taken-IsIdle (is_zero ret) t idle
probe-IsIdle (fexit_futex_wake ret) t idle = freed-IsIdle (is_nonneg ret) t idle
probe-IsIdle (fexit_futex_wake_op ret) t idle = freed-IsIdle (is_nonneg ret) t idle
probe-IsIdle (fexit_futex_unlock_pi ret) t idle = freed-IsIdle (is_zero ret) t idle
probe-IsIdle (tp_enter_futex op) t idle = op-IsIdle _ t (omega arith) idle
probe-IsIdle (tp_exit_futex ret) t idle = exit-IsIdle ret t idle
probe-IsIdle (tp_exit_futex_wait ret) t idle = taken-IsIdle (is_zero ret) t idle
probe-IsIdle (tp_exit_futex_wake ret) t idle = freed-IsIdle (is_nonneg ret) t idle

pub absent_tasks :
    (p : ℕ) (f : TaskCtx → TaskCtx) (w : World)
    → w.tasks p ≡ none
    → (on_current (some p) f w).tasks ≡ w.tasks
unfolding on_current
absent_tasks p f w here = rw (on_current, here) refl

pub present_tasks :
    (p : ℕ) (f : TaskCtx → TaskCtx) (w : World) (t : TaskCtx)
    → w.tasks p ≡ some t
    → (on_current (some p) f w).tasks ≡ update w.tasks p (some (f t))
unfolding on_current
present_tasks p f w t here = rw (on_current, here) refl

by_AllIdle :
    {f : TaskCtx → TaskCtx} (probe : IsProbe f) (p : ℕ) (w : World) (o : Option TaskCtx)
    → w.tasks p ≡ o
    → ((t : TaskCtx) → o ≡ some t → IsIdle t)
    → AllIdle w
    → AllIdle (on_current (some p) f w)
by_AllIdle {f = f} probe p w none here idle all =
    same-AllIdle w (on_current (some p) f w) (absent_tasks p f w here) all
by_AllIdle {f = f} probe p w (some t) here idle all =
    set-AllIdle w (on_current (some p) f w) p (f t) (present_tasks p f w t here)
      (probe-IsIdle probe t (idle t refl)) all

pub on_current-AllIdle :
    {f : TaskCtx → TaskCtx}
    → IsProbe f
    → (current : Option ℕ) (w : World) → AllIdle w
    → AllIdle (on_current current f w)
unfolding on_current AllIdle
on_current-AllIdle probe none w all = all
on_current-AllIdle probe (some p) w all = by_AllIdle probe p w (w.tasks p) refl (all p) all

-- No flag and no mask of an LLC changes.
pub on_current-SameLlcs :
    (f : TaskCtx → TaskCtx) (current : Option ℕ) (w : World) → SameLlcs w (on_current current f w)
unfolding on_current
on_current-SameLlcs f none w = record { same_flags = refl; same_masks = refl }
on_current-SameLlcs f (some p) w = ground arith

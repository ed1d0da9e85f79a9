-- ===== src/Lock/Paths.antt =====
-- The two ways to trace a futex call agree.
use scx_imperator.Common.{
  ℤ, ℕ, zero, suc, ◌+◌, ◌-◌, ◌*◌, ◌/◌, ◌%◌, ◌^◌, ◌<◌, ◌≡◌, ◌∙◌, refl, ap, arith, false, bit_and,
  ◌==◌, u8, bit_and_keep,
}
use scx_imperator.Intf.{cake_futex_op_unset}
use scx_imperator.State.{TaskCtx}
use scx_imperator.Lock.{
  FutexOp, futex_wait, futex_wake, futex_wake_op, futex_lock_pi, futex_unlock_pi, futex_trylock_pi,
  futex_wait_bitset, futex_wake_bitset, futex_wait_requeue_pi, futex_lock_pi2, op_code,
  set_lock_holder, clear_lock_holder, imperator_fexit_futex_wait,
  imperator_fexit_futex_wait_requeue_pi, imperator_fexit_futex_lock_pi,
  imperator_fexit_futex_trylock_pi, imperator_fexit_futex_wake, imperator_fexit_futex_wake_op,
  imperator_fexit_futex_unlock_pi, imperator_tp_enter_futex, futex_cmd, exit_switch,
  imperator_tp_exit_futex,
}

-- The probe on the kernel's function behind each command.
unfoldable pub fexit : FutexOp → ℤ → TaskCtx → TaskCtx
fexit futex_wait = imperator_fexit_futex_wait
fexit futex_wait_bitset = imperator_fexit_futex_wait
fexit futex_wait_requeue_pi = imperator_fexit_futex_wait_requeue_pi
fexit futex_lock_pi = imperator_fexit_futex_lock_pi
fexit futex_lock_pi2 = imperator_fexit_futex_lock_pi
fexit futex_trylock_pi = imperator_fexit_futex_trylock_pi
fexit futex_wake = imperator_fexit_futex_wake
fexit futex_wake_bitset = imperator_fexit_futex_wake
fexit futex_wake_op = imperator_fexit_futex_wake_op
fexit futex_unlock_pi = imperator_fexit_futex_unlock_pi

-- The word of the system call: the command with the two flags of its high bits.
abbrev pub op_word : FutexOp → (priv clock : ℕ) → ℕ
op_word o priv clock = op_code o + 128 * priv + 256 * clock

drop_flags : (q : ℕ) → q < 2 → bit_and q (2 ^ 25 - 4) ≡ 0
drop_flags zero h = refl
drop_flags (suc zero) h = refl
drop_flags (suc (suc q)) h = absurd (omega arith)

futex_cmd-arith : (n : ℕ) → n < 256 → futex_cmd n ≡ n % 128
unfolding futex_cmd
futex_cmd-arith n h =
    ground (arith, bit_and_keep 7 n (2 ^ 25 - 4), drop_flags (n / 128) (omega arith))

op_code-lt : (o : FutexOp) → op_code o < 14
op_code-lt futex_wait = omega arith
op_code-lt futex_wake = omega arith
op_code-lt futex_wake_op = omega arith
op_code-lt futex_lock_pi = omega arith
op_code-lt futex_unlock_pi = omega arith
op_code-lt futex_trylock_pi = omega arith
op_code-lt futex_wait_bitset = omega arith
op_code-lt futex_wake_bitset = omega arith
op_code-lt futex_wait_requeue_pi = omega arith
op_code-lt futex_lock_pi2 = omega arith

-- The switch does what the probe of the command does.
switch_fexit : (o : FutexOp) (ret : ℤ) (t : TaskCtx) → exit_switch (op_code o) ret t ≡ fexit o ret t
unfolding exit_switch imperator_fexit_futex_wait imperator_fexit_futex_wait_requeue_pi
    imperator_fexit_futex_lock_pi imperator_fexit_futex_trylock_pi imperator_fexit_futex_wake
    imperator_fexit_futex_wake_op imperator_fexit_futex_unlock_pi fexit
switch_fexit futex_wait ret t = refl
switch_fexit futex_wake ret t = refl
switch_fexit futex_wake_op ret t = refl
switch_fexit futex_lock_pi ret t = refl
switch_fexit futex_unlock_pi ret t = refl
switch_fexit futex_trylock_pi ret t = refl
switch_fexit futex_wait_bitset ret t = refl
switch_fexit futex_wake_bitset ret t = refl
switch_fexit futex_wait_requeue_pi ret t = refl
switch_fexit futex_lock_pi2 ret t = refl

-- The switch neither reads nor writes the recorded command.
abbrev set_pending : ℕ → TaskCtx → TaskCtx
set_pending n t = record t { pending_futex_op = n }

switch_pending :
    (cmd n : ℕ) (ret : ℤ) (t : TaskCtx)
    → exit_switch cmd ret (set_pending n t) ≡ set_pending n (exit_switch cmd ret t)
unfolding exit_switch set_lock_holder clear_lock_holder
switch_pending cmd n ret t = ground arith

-- The tracepoints at the entry and the exit of a futex call do what the fexit probe of its command
-- does, for every command of the list, with or without the private and the clock flag, and for
-- every return value; and they forget the command.
pub imperator_tp_exit_futex-fexit :
    (o : FutexOp) (priv clock : ℕ) (ret : ℤ) (t : TaskCtx)
    → priv < 2
    → clock < 2
    → imperator_tp_exit_futex ret (imperator_tp_enter_futex (op_word o priv clock) t)
      ≡ record (fexit o ret t) { pending_futex_op = cake_futex_op_unset }
unfolding imperator_tp_exit_futex imperator_tp_enter_futex
imperator_tp_exit_futex-fexit o priv clock ret t hp hc =
    let n = u8 (op_word o priv clock) in
    let small = op_code-lt o in
    let cmd : futex_cmd n ≡ op_code o = omega (arith, futex_cmd-arith n (omega arith)) in
    let recorded : (n == cake_futex_op_unset) ≡ false = ground arith in
    rw cmd (
      rw recorded (
        ap (set_pending cake_futex_op_unset)
          (switch_pending (op_code o) n ret t ∙ ap (set_pending n) (switch_fexit o ret t))))

-- An exit without an entry does nothing: a second exit has no effect, whatever it returned.
pub imperator_tp_exit_futex_once :
    (ret ret' : ℤ) (t : TaskCtx)
    → imperator_tp_exit_futex ret' (imperator_tp_exit_futex ret t) ≡ imperator_tp_exit_futex ret t
unfolding imperator_tp_exit_futex
imperator_tp_exit_futex_once ret ret' t = ground arith

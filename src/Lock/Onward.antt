-- ===== src/Lock/Onward.antt =====
-- The tasks over the probes of src/bpf/lock.bpf.c: each goes on in its tier.
use scx_imperator.Common.{
  ℤ, is_zero, is_nonneg, ℕ, ◌^◌, ◌<◌, ◌≡◌, refl, ap, arith, Bool, Option, some, none, if◌then◌else◌,
}
use scx_imperator.Intf.{lock_holder, get_tier}
use scx_imperator.Intf.Laws.{get_tier-set_flag, get_tier-clear_flag}
use scx_imperator.State.{TaskCtx, World}
use scx_imperator.Task.Frame.{RunsOn, AllRunOn, set-AllRunOn, same-AllRunOn}
use scx_imperator.Task.Idle.{IsIdle, AllIdle}
use scx_imperator.Lock.{
  on_current, set_lock_holder, clear_lock_holder, imperator_fexit_futex_wait,
  imperator_fexit_futex_wait_requeue_pi, imperator_fexit_futex_lock_pi,
  imperator_fexit_futex_trylock_pi, imperator_fexit_futex_wake, imperator_fexit_futex_wake_op,
  imperator_fexit_futex_unlock_pi, imperator_tp_enter_futex, exit_switch, futex_cmd,
  imperator_tp_exit_futex, imperator_tp_exit_futex_wait, imperator_tp_exit_futex_wake,
}
use scx_imperator.Lock.Contexts.{
  IsProbe, absent_tasks, present_tasks, fexit_futex_wait, fexit_futex_wait_requeue_pi,
  fexit_futex_lock_pi, fexit_futex_trylock_pi, fexit_futex_wake, fexit_futex_wake_op,
  fexit_futex_unlock_pi, tp_enter_futex, tp_exit_futex, tp_exit_futex_wait, tp_exit_futex_wake,
}

-- The tier and the time of a context are those of another.
record Same (t t' : TaskCtx) : Type 0 where
  tier : get_tier t'.packed_info ≡ get_tier t.packed_info
  stamp : t'.last_run_at ≡ t.last_run_at

Same-RunsOn : (t t' : TaskCtx) → Same t t' → RunsOn (some t) (some t')
Same-RunsOn t t' s = record {
  same_tier = ap some s.tier;
  stays_stamped = λ h. let e = s.stamp in ground arith;
}

module _ (t : TaskCtx) (fits : t.packed_info < 2 ^ 32) where
  taken-Same : (b : Bool) → Same t (if b then set_lock_holder t else t)
  unfolding set_lock_holder
  taken-Same b = ground (arith, get_tier-set_flag lock_holder t.packed_info fits)

  freed-Same : (b : Bool) → Same t (if b then clear_lock_holder t else t)
  unfolding clear_lock_holder
  freed-Same b = ground (arith, get_tier-clear_flag lock_holder t.packed_info fits)

  switch-Same : (cmd : ℕ) (ret : ℤ) → Same t (exit_switch cmd ret t)
  unfolding exit_switch
  switch-Same cmd ret =
      ground (
        arith,
        taken-Same (is_zero ret),
        freed-Same (is_zero ret),
        freed-Same (is_nonneg ret),
        same,
      )
    where
      same : Same t t
      same = record { tier = refl; stamp = refl }

  exit-Same : (ret : ℤ) → Same t (imperator_tp_exit_futex ret t)
  unfolding imperator_tp_exit_futex
  exit-Same ret = let s = switch-Same (futex_cmd t.pending_futex_op) ret in ground arith

  probe-Same : {f : TaskCtx → TaskCtx} → IsProbe f → Same t (f t)
  unfolding imperator_fexit_futex_wait imperator_fexit_futex_wait_requeue_pi
      imperator_fexit_futex_lock_pi imperator_fexit_futex_trylock_pi imperator_fexit_futex_wake
      imperator_fexit_futex_wake_op imperator_fexit_futex_unlock_pi imperator_tp_enter_futex
      imperator_tp_exit_futex_wait imperator_tp_exit_futex_wake
  probe-Same (fexit_futex_wait ret) = taken-Same (is_zero ret)
  probe-Same (fexit_futex_wait_requeue_pi ret) = taken-Same (is_zero ret)
  probe-Same (fexit_futex_lock_pi ret) = taken-Same (is_zero ret)
  probe-Same (fexit_futex_trylock_pi ret) = taken-Same (is_zero ret)
  probe-Same (fexit_futex_wake ret) = freed-Same (is_nonneg ret)
  probe-Same (fexit_futex_wake_op ret) = freed-Same (is_nonneg ret)
  probe-Same (fexit_futex_unlock_pi ret) = freed-Same (is_zero ret)
  probe-Same (tp_enter_futex op) = record { tier = refl; stamp = refl }
  probe-Same (tp_exit_futex ret) = exit-Same ret
  probe-Same (tp_exit_futex_wait ret) = taken-Same (is_zero ret)
  probe-Same (tp_exit_futex_wake ret) = freed-Same (is_nonneg ret)

on_current_tiers :
    (current : Option ℕ) (f : TaskCtx → TaskCtx) (w : World)
    → (on_current current f w).tier_cpu_mask ≡ w.tier_cpu_mask
unfolding on_current
on_current_tiers none f w = refl
on_current_tiers (some p) f w = ground arith

by_AllRunOn :
    {f : TaskCtx → TaskCtx} (probe : IsProbe f) (p : ℕ) (w : World) (o : Option TaskCtx)
    → w.tasks p ≡ o
    → ((t : TaskCtx) → o ≡ some t → IsIdle t)
    → AllRunOn w (on_current (some p) f w)
by_AllRunOn {f = f} probe p w none here idle =
    same-AllRunOn w (on_current (some p) f w) (on_current_tiers (some p) f w)
      (absent_tasks p f w here)
by_AllRunOn {f = f} probe p w (some t) here idle =
    set-AllRunOn w (on_current (some p) f w) p (f t) (on_current_tiers (some p) f w)
      (present_tasks p f w t here)
      (rw here (Same-RunsOn t (f t) (probe-Same t (idle t refl).wf.packed_fits probe)))

pub on_current-AllRunOn :
    {f : TaskCtx → TaskCtx}
    → IsProbe f
    → (current : Option ℕ) (w : World) → AllIdle w
    → AllRunOn w (on_current current f w)
unfolding on_current AllIdle
on_current-AllRunOn {f = f} probe none w all = same-AllRunOn w w refl refl
on_current-AllRunOn probe (some p) w all = by_AllRunOn probe p w (w.tasks p) refl (all p)

on_by_stats :
    (f : TaskCtx → TaskCtx) (p : ℕ) (w : World) (o : Option TaskCtx)
    → w.tasks p ≡ o
    → (on_current (some p) f w).global_stats ≡ w.global_stats
unfolding on_current
on_by_stats f p w none here = rw (on_current, here) refl
on_by_stats f p w (some t) here = rw (on_current, here) refl

pub on_current_stats :
    (f : TaskCtx → TaskCtx) (current : Option ℕ) (w : World)
    → (on_current current f w).global_stats ≡ w.global_stats
unfolding on_current
on_current_stats f none w = refl
on_current_stats f (some p) w = on_by_stats f p w (w.tasks p) refl

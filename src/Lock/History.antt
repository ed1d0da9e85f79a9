-- ===== src/Lock/History.antt =====
-- The lock-holder flag over a run of futex calls of one task.
use scx_imperator.Common.{
  ℤ, is_zero, is_nonneg, ◌≡◌, ◌∙◌, ap, refl, arith, Bool, true, false, List, [], ◌∷◌, Option, none,
  some, if◌then◌else◌,
}
use scx_imperator.Intf.{flow_new, lock_holder, irq_wake, get_tier, get_stable, has_flag}
use scx_imperator.Intf.Laws.{
  set_flag-lt, clear_flag-lt, get_tier-set_flag, get_tier-clear_flag, get_stable-set_flag,
  get_stable-clear_flag, has_flag-set_flag, has_flag-clear_flag,
}
use scx_imperator.State.{TaskCtx}
use scx_imperator.Task.{IsWf}
use scx_imperator.Lock.{
  FutexOp, futex_wait, futex_wake, futex_wake_op, futex_unlock_pi, futex_wake_bitset,
  set_lock_holder, clear_lock_holder, imperator_fexit_futex_wait,
  imperator_fexit_futex_wait_requeue_pi, imperator_fexit_futex_lock_pi,
  imperator_fexit_futex_trylock_pi, imperator_fexit_futex_wake, imperator_fexit_futex_wake_op,
  imperator_fexit_futex_unlock_pi,
}
use scx_imperator.Lock.Paths.{fexit}

-- A traced call: the command, and what it returned.
pub record FutexCall : Type 0 where
  pub op : FutexOp
  pub ret : ℤ

pub trace : List FutexCall → TaskCtx → TaskCtx
trace [] t = t
trace (e ∷ es) t = trace es (fexit e.op e.ret t)

-- What the call says of the lock: taken, let go, or nothing.
abbrev pub says : FutexOp → ℤ → Option Bool
says futex_wake ret = if is_nonneg ret then some false else none
says futex_wake_bitset ret = if is_nonneg ret then some false else none
says futex_wake_op ret = if is_nonneg ret then some false else none
says futex_unlock_pi ret = if is_zero ret then some false else none
says _ ret = if is_zero ret then some true else none

-- By the last call that says something, if there is one.
pub held : List FutexCall → Bool → Bool
held [] b = b
held (e ∷ es) b = held es (elim (says e.op e.ret) [ none ↦ b | some b' ↦ b' ])

abbrev apply_says : Option Bool → TaskCtx → TaskCtx
apply_says none t = t
apply_says (some true) t = set_lock_holder t
apply_says (some false) t = clear_lock_holder t

fexit-says : (o : FutexOp) (ret : ℤ) (t : TaskCtx) → fexit o ret t ≡ apply_says (says o ret) t
unfolding fexit imperator_fexit_futex_wait imperator_fexit_futex_wait_requeue_pi
    imperator_fexit_futex_lock_pi imperator_fexit_futex_trylock_pi imperator_fexit_futex_wake
    imperator_fexit_futex_wake_op imperator_fexit_futex_unlock_pi
fexit-says futex_wait ret t = ground arith
fexit-says o ret t = ground arith

-- What no futex call touches.
pub record SameButLock (t t' : TaskCtx) : Type 0 where
  pub same_tier : get_tier t'.packed_info ≡ get_tier t.packed_info
  pub same_stable : get_stable t'.packed_info ≡ get_stable t.packed_info
  pub same_new : has_flag flow_new t'.packed_info ≡ has_flag flow_new t.packed_info
  pub same_irq : has_flag irq_wake t'.packed_info ≡ has_flag irq_wake t.packed_info
  pub same_slice : t'.next_slice ≡ t.next_slice
  pub same_avg : t'.deficit_avg_fused ≡ t.deficit_avg_fused

says_step :
    (o : Option Bool) (t : TaskCtx)
    → IsWf t
    → IsWf (apply_says o t)
      × SameButLock t (apply_says o t)
      × (has_flag lock_holder (apply_says o t).packed_info
          ≡ elim o [ none ↦ has_flag lock_holder t.packed_info | some b ↦ b ])
unfolding set_lock_holder clear_lock_holder
says_step none t wf = (
  wf,
  record {
    same_tier = refl;
    same_stable = refl;
    same_new = refl;
    same_irq = refl;
    same_slice = refl;
    same_avg = refl;
  },
  refl,
)
says_step (some true) t wf =
    let p = t.packed_info in
    let h = wf.packed_fits in
    (
      ground (arith, set_flag-lt lock_holder p h),
      record {
        same_tier = get_tier-set_flag lock_holder p h;
        same_stable = get_stable-set_flag lock_holder p h;
        same_new = has_flag-set_flag lock_holder flow_new p h;
        same_irq = has_flag-set_flag lock_holder irq_wake p h;
        same_slice = refl;
        same_avg = refl;
      },
      has_flag-set_flag lock_holder lock_holder p h,
    )
says_step (some false) t wf =
    let p = t.packed_info in
    let h = wf.packed_fits in
    (
      ground (arith, clear_flag-lt lock_holder p h),
      record {
        same_tier = get_tier-clear_flag lock_holder p h;
        same_stable = get_stable-clear_flag lock_holder p h;
        same_new = has_flag-clear_flag lock_holder flow_new p h;
        same_irq = has_flag-clear_flag lock_holder irq_wake p h;
        same_slice = refl;
        same_avg = refl;
      },
      has_flag-clear_flag lock_holder lock_holder p h,
    )

fexit_step :
    (o : FutexOp) (ret : ℤ) (t : TaskCtx)
    → IsWf t
    → IsWf (fexit o ret t)
      × SameButLock t (fexit o ret t)
      × (has_flag lock_holder (fexit o ret t).packed_info
          ≡ elim (says o ret) [ none ↦ has_flag lock_holder t.packed_info | some b ↦ b ])
fexit_step o ret t wf = rw (fexit-says o ret t) (says_step (says o ret) t wf)

SameButLock-trans : {a b c : TaskCtx} → SameButLock a b → SameButLock b c → SameButLock a c
SameButLock-trans x y = record {
  same_tier = y.same_tier ∙ x.same_tier;
  same_stable = y.same_stable ∙ x.same_stable;
  same_new = y.same_new ∙ x.same_new;
  same_irq = y.same_irq ∙ x.same_irq;
  same_slice = y.same_slice ∙ x.same_slice;
  same_avg = y.same_avg ∙ x.same_avg;
}

-- After any run of futex calls, the flag tells what the last of them that says something said, or
-- what it told before; the context is well formed, and the tier, the stability, the other flags,
-- the slice and the average are those from before the run.
pub trace_lem :
    (es : List FutexCall) (t : TaskCtx)
    → IsWf t
    → let t' = trace es t in
      (has_flag lock_holder t'.packed_info ≡ held es (has_flag lock_holder t.packed_info))
      × IsWf t'
      × SameButLock t t'
unfolding trace held
trace_lem [] t wf = (
  refl,
  wf,
  record {
    same_tier = refl;
    same_stable = refl;
    same_new = refl;
    same_irq = refl;
    same_slice = refl;
    same_avg = refl;
  },
)
trace_lem (e ∷ es) t wf =
    let step = fexit_step e.op e.ret t wf in
    let rest = trace_lem es (fexit e.op e.ret t) step.0 in
    (rest.0 ∙ ap (held es) step.2, rest.1, SameButLock-trans step.1 rest.2)

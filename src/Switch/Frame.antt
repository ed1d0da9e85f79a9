-- ===== src/Switch/Frame.antt =====
-- imperator_running and imperator_stopping: whose context they change.
use scx_imperator.Common.{ℕ, ◌≡◌, refl, arith, Bool, false, Option, none, some, ◌==◌, update, u32}
use scx_imperator.State.{TaskCtx, Rodata, World}
use scx_imperator.Switch.{
  stamp_run, run_ctx, run_by, imperator_running, stop_ctx, stop_by, imperator_stopping,
}

pub imperator_running-none :
    (c : Rodata) (cpu now p : ℕ) (w : World)
    → w.tasks p ≡ none
    → imperator_running c cpu now p w ≡ w
unfolding imperator_running run_by
imperator_running-none c cpu now p w here = rw here refl

pub imperator_stopping-none :
    (c : Rodata) (r : Bool) (cpu now now' p : ℕ) (w : World)
    → w.tasks p ≡ none
    → imperator_stopping c r cpu now now' p w ≡ w
unfolding imperator_stopping stop_by
imperator_stopping-none c r cpu now now' p w here = rw here refl

pub imperator_running_tasks :
    (c : Rodata) (cpu now p : ℕ) (w : World) (t : TaskCtx)
    → w.tasks p ≡ some t
    → (imperator_running c cpu now p w).tasks ≡ update w.tasks p (some (stamp_run now t))
unfolding imperator_running run_by run_ctx
imperator_running_tasks c cpu now p w t here = rw here refl

stop_by_other :
    (c : Rodata) (r : Bool) (cpu now now' p q : ℕ) (w : World) (o : Option TaskCtx)
    → (p == q) ≡ false
    → (stop_by c r cpu now now' p w o).tasks q ≡ w.tasks q
unfolding stop_by stop_ctx
stop_by_other c r cpu now now' p q w none other = refl
stop_by_other c r cpu now now' p q w (some t) other = ground arith

pub imperator_stopping_other :
    (c : Rodata) (r : Bool) (cpu now now' p q : ℕ) (w : World)
    → (p == q) ≡ false
    → (imperator_stopping c r cpu now now' p w).tasks q ≡ w.tasks q
unfolding imperator_stopping
imperator_stopping_other c r cpu now now' p q w other =
    stop_by_other c r cpu now now' p q w (w.tasks p) other

-- The stamp of a run is the time, and leaves the tier alone.
pub stamp_run_keeps :
    (now : ℕ) (t : TaskCtx)
    → ((stamp_run now t).last_run_at ≡ u32 now) × ((stamp_run now t).packed_info ≡ t.packed_info)
unfolding stamp_run
stamp_run_keeps now t = (ground arith, ground arith)

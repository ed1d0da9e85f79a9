-- ===== src/Switch/Contexts.antt =====
-- The contexts over imperator_running and imperator_stopping.
use scx_imperator.Common.{
  ℕ, ◌^◌, ◌<◌, ◌≡◌, refl, arith, Bool, Option, some, none, ◌==◌, Bool-cases, inl, inr, u32,
  if◌then◌else◌,
}
use scx_imperator.Intf.{cpu_idx}
use scx_imperator.State.{SameLlcs, TaskCtx, Rodata, World}
use scx_imperator.Task.Idle.{IsIdle, AllIdle, set-AllIdle}
use scx_imperator.Reclassify.{reclassify_task_cold}
use scx_imperator.Reclassify.Preserve.{reclassify_task_cold-IsWf, reclassify_task_cold_spent}
use scx_imperator.Switch.{
  stamp_run, run_ctx, run_by, imperator_running, stop_ctx, stop_by, imperator_stopping,
}
use scx_imperator.Switch.Jitter.{stamp_run-IsWf}

stamp_run-IsIdle : (now : ℕ) (t : TaskCtx) → IsIdle t → IsIdle (stamp_run now t)
unfolding stamp_run
stamp_run-IsIdle now t idle = record {
  wf = stamp_run-IsWf now t idle.wf;
  spent = let h = idle.spent in ground arith;
}

run_by-AllIdle :
    (c : Rodata) (cpu now p : ℕ) (w : World) (o : Option TaskCtx)
    → ((t : TaskCtx) → o ≡ some t → IsIdle t)
    → AllIdle w
    → AllIdle (run_by c cpu now p w o)
unfolding run_by run_ctx
run_by-AllIdle c cpu now p w none idle all = all
run_by-AllIdle c cpu now p w (some t) idle all =
    set-AllIdle w _ p (stamp_run now t) refl (stamp_run-IsIdle now t (idle t refl)) all

pub imperator_running-AllIdle :
    (c : Rodata) (cpu now p : ℕ) (w : World) → AllIdle w → AllIdle (imperator_running c cpu now p w)
unfolding imperator_running AllIdle
imperator_running-AllIdle c cpu now p w all = run_by-AllIdle c cpu now p w (w.tasks p) (all p) all

stopped-IsIdle :
    (c : Rodata) (r : Bool) (now sleep : ℕ) (t : TaskCtx)
    → sleep < 2 ^ 32
    → IsIdle t
    → IsIdle (reclassify_task_cold c r now (record t { sleep_entry_time = sleep }))
stopped-IsIdle c r now sleep t fits idle =
    let wf = idle.wf in
    let stamped = record t { sleep_entry_time = sleep } in
    record {
      wf = reclassify_task_cold-IsWf c r now stamped (ground arith);
      spent = reclassify_task_cold_spent c r now stamped idle.spent;
    }

stop_ctx-AllIdle :
    (c : Rodata) (r : Bool) (cpu now now' p : ℕ) (t : TaskCtx) (w : World)
    → IsIdle t
    → AllIdle w
    → AllIdle (stop_ctx c r cpu now now' p t w)
unfolding stop_ctx
stop_ctx-AllIdle c r cpu now now' p t w idle all =
    set-AllIdle w _ p _ refl
      (stopped-IsIdle c r (u32 now') (if r then 0 else u32 now) t (ground arith) idle) all

stop_by-AllIdle :
    (c : Rodata) (r : Bool) (cpu now now' p : ℕ) (w : World) (o : Option TaskCtx)
    → ((t : TaskCtx) → o ≡ some t → IsIdle t)
    → AllIdle w
    → AllIdle (stop_by c r cpu now now' p w o)
unfolding stop_by
stop_by-AllIdle c r cpu now now' p w none idle all = all
stop_by-AllIdle c r cpu now now' p w (some t) idle all = elim (Bool-cases (t.last_run_at == 0)) [
  | inl never ↦ rw never all
  | inr ran ↦ rw ran (stop_ctx-AllIdle c r (cpu_idx cpu) now now' p t w (idle t refl) all)
]

pub imperator_stopping-AllIdle :
    (c : Rodata) (r : Bool) (cpu now now' p : ℕ) (w : World)
    → AllIdle w
    → AllIdle (imperator_stopping c r cpu now now' p w)
unfolding imperator_stopping AllIdle
imperator_stopping-AllIdle c r cpu now now' p w all =
    stop_by-AllIdle c r cpu now now' p w (w.tasks p) (all p) all

-- No flag and no mask of an LLC changes.
run_by-SameLlcs :
    (c : Rodata) (cpu now p : ℕ) (w : World) (o : Option TaskCtx)
    → SameLlcs w (run_by c cpu now p w o)
unfolding run_by run_ctx
run_by-SameLlcs c cpu now p w none = record { same_flags = refl; same_masks = refl }
run_by-SameLlcs c cpu now p w (some t) = record { same_flags = refl; same_masks = refl }

pub imperator_running-SameLlcs :
    (c : Rodata) (cpu now p : ℕ) (w : World) → SameLlcs w (imperator_running c cpu now p w)
unfolding imperator_running
imperator_running-SameLlcs c cpu now p w = run_by-SameLlcs c cpu now p w (w.tasks p)

stop_by-SameLlcs :
    (c : Rodata) (r : Bool) (cpu now now' p : ℕ) (w : World) (o : Option TaskCtx)
    → SameLlcs w (stop_by c r cpu now now' p w o)
unfolding stop_by stop_ctx
stop_by-SameLlcs c r cpu now now' p w none = record { same_flags = refl; same_masks = refl }
stop_by-SameLlcs c r cpu now now' p w (some t) = ground arith

pub imperator_stopping-SameLlcs :
    (c : Rodata) (r : Bool) (cpu now now' p : ℕ) (w : World)
    → SameLlcs w (imperator_stopping c r cpu now now' p w)
unfolding imperator_stopping
imperator_stopping-SameLlcs c r cpu now now' p w = stop_by-SameLlcs c r cpu now now' p w (w.tasks p)

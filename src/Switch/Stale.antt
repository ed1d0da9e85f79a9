-- ===== src/Switch/Stale.antt =====
-- imperator_running at a time whose low 32 bits are 0, which is the value of a context that never ran.
use scx_imperator.Common.{
  ℕ, ◌<◌, ◌≡◌, ◌∙◌, refl, sym, ap, arith, Bool, true, false, Option, some, none, test_bit, ◌==◌,
  u32,
}
use scx_imperator.Intf.{get_tier}
use scx_imperator.Intf.Laws.{get_tier-lt}
use scx_imperator.State.{TaskCtx, Rodata, World}
use scx_imperator.Task.{IsWf}
use scx_imperator.Switch.{imperator_running, imperator_stopping, stop_by, stamp_run}
use scx_imperator.Switch.Masks.{run_masks, mark_bit, Running, MasksExact, runs_tier, is_tier}
use scx_imperator.Switch.Frame.{imperator_running_tasks, stamp_run_keeps}

-- A stop of a task whose time is 0 does nothing.
imperator_stopping-unstamped :
    (c : Rodata) (r : Bool) (cpu now now' p : ℕ) (w : World) (t : TaskCtx)
    → w.tasks p ≡ some t
    → t.last_run_at ≡ 0
    → imperator_stopping c r cpu now now' p w ≡ w
unfolding imperator_stopping stop_by
imperator_stopping-unstamped c r cpu now now' p w t here zero_time =
    let never : (t.last_run_at == 0) ≡ true = ground arith in rw here (rw never refl)

module _ (c : Rodata) (cpu now p : ℕ) (w : World) (t : TaskCtx) (hc : cpu < 64)
    (here : w.tasks p ≡ some t) (wf : IsWf t) where
  marked :
      test_bit ((imperator_running c cpu now p w).tier_cpu_mask (get_tier t.packed_info)) cpu ≡ true
  marked =
      let u = get_tier t.packed_info in
      rw (run_masks c cpu now p t w hc here wf) (
        mark_bit u cpu w.tier_cpu_mask (get_tier-lt t.packed_info wf.packed_fits) hc u cpu
        ∙ ground arith)

  -- A task with a well-formed context that starts to run on one of the 64 CPUs at a time whose low 32
  -- bits are 0, and stops with no other callback in between: the stop changes nothing at all, so that
  -- the bit of the CPU stays in the mask of the tier of the task. The masks are then exact for no
  -- table of running tasks in which the CPU runs none.
  pub imperator_stopping_unstamped :
      (runnable : Bool) (later later' : ℕ) (r : Running)
      → u32 now ≡ 0
      → r cpu ≡ none
      → let w' = imperator_running c cpu now p w in
        let w'' = imperator_stopping c runnable cpu later later' p w' in
        (w'' ≡ w')
        × (test_bit (w''.tier_cpu_mask (get_tier t.packed_info)) cpu ≡ true)
        × ¬ MasksExact w'' r
  imperator_stopping_unstamped runnable later later' r clock idle =
      let w' = imperator_running c cpu now p w in
      let stamped = stamp_run now t in
      let there : w'.tasks p ≡ some stamped =
        rw (imperator_running_tasks c cpu now p w t here) (ground arith) in
      let stays =
        imperator_stopping-unstamped c runnable cpu later later' p w' stamped there
          ((stamp_run_keeps now t).0 ∙ clock) in
      rw stays (
        refl,
        marked,
        λ m. absurd (
            let bit = sym marked ∙ m.exact (get_tier t.packed_info) cpu hc in
            let e : runs_tier r cpu (get_tier t.packed_info) ≡ false =
              ap (λ (x : Option ℕ). is_tier x (get_tier t.packed_info)) idle in
            let bad = bit ∙ e in ground (arith, bad)),
      )

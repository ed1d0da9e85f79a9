-- ===== src/Switch/Counters.antt =====
-- The counters of imperator_running, which has none for the burst credit or for starvation.
use scx_imperator.Common.{ℕ, ◌≡◌, refl, arith, Bool, Option, some, none, ◌==◌, Bool-cases, inl, inr}
use scx_imperator.Intf.{cpu_idx}
use scx_imperator.State.{TaskCtx, Stats, Rodata, World}
use scx_imperator.State.Counters.{ReadsZero, AllReadZero, every_cpu, update-AllReadZero}
use scx_imperator.Switch.{
  stamp_run, count_jitter, run_ctx, run_by, imperator_running, stop_ctx, stop_by,
  imperator_stopping,
}

count_jitter-ReadsZero :
    (c : Rodata) (t t' : TaskCtx) (s : Stats) → ReadsZero s → ReadsZero (count_jitter c t t' s)
unfolding count_jitter
count_jitter-ReadsZero c t t' s zero_at = ground arith

run_by-AllReadZero :
    (c : Rodata) (cpu now p : ℕ) (w : World) (o : Option TaskCtx)
    → AllReadZero w
    → AllReadZero (run_by c cpu now p w o)
unfolding run_by run_ctx
run_by-AllReadZero c cpu now p w none zero_at = zero_at
run_by-AllReadZero c cpu now p w (some t) zero_at =
    let here = cpu_idx cpu in
    update-AllReadZero w (run_ctx c here now p t w) here
      (count_jitter c t (stamp_run now t) (w.global_stats here)) refl
      (count_jitter-ReadsZero c t (stamp_run now t) (w.global_stats here)
        (every_cpu w zero_at here))
      zero_at

pub imperator_running-AllReadZero :
    (c : Rodata) (cpu now p : ℕ) (w : World)
    → AllReadZero w
    → AllReadZero (imperator_running c cpu now p w)
unfolding imperator_running
imperator_running-AllReadZero c cpu now p w = run_by-AllReadZero c cpu now p w (w.tasks p)

stop_by_stats :
    (c : Rodata) (r : Bool) (cpu now now' p : ℕ) (w : World) (o : Option TaskCtx)
    → (stop_by c r cpu now now' p w o).global_stats ≡ w.global_stats
unfolding stop_by stop_ctx
stop_by_stats c r cpu now now' p w none = refl
stop_by_stats c r cpu now now' p w (some t) = elim (Bool-cases (t.last_run_at == 0)) [
  | inl e ↦ rw e refl
  | inr e ↦ rw e refl
]

pub imperator_stopping_stats :
    (c : Rodata) (r : Bool) (cpu now now' p : ℕ) (w : World)
    → (imperator_stopping c r cpu now now' p w).global_stats ≡ w.global_stats
unfolding imperator_stopping
imperator_stopping_stats c r cpu now now' p w = stop_by_stats c r cpu now now' p w (w.tasks p)

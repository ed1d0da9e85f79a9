-- ===== src/SelectCpu/Counters.antt =====
-- The counters of imperator_select_cpu, which has none for the burst credit or for starvation.
use scx_imperator.Common.{ℕ, ◌≡◌, refl, arith, Option, some, none, Bool-cases, inl, inr}
use scx_imperator.Intf.{cpu_idx}
use scx_imperator.State.{TaskCtx, Stats, Rodata, World, Kernel}
use scx_imperator.State.Counters.{
  ReadsZero, AllReadZero, every_cpu, same-AllReadZero, update-AllReadZero,
}
use scx_imperator.SelectCpu.{
  SelEnv, stamp_by, stamp, irq_context, consume_irq_wake_get_tier_slice, count_idle, direct,
  imperator_select_cpu,
}

stamp_by_stats :
    (w : World) (p : ℕ) (o : Option TaskCtx) → (stamp_by w p o).global_stats ≡ w.global_stats
unfolding stamp_by
stamp_by_stats w p none = refl
stamp_by_stats w p (some t) = refl

stamp_stats :
    (k : Kernel) (env : SelEnv) (w : World) (p : ℕ)
    → (stamp k env w p).global_stats ≡ w.global_stats
unfolding stamp
stamp_stats k env w p = elim (Bool-cases (irq_context k env)) [
  | inl e ↦ rw e (stamp_by_stats w p (w.tasks p))
  | inr e ↦ rw e refl
]

taken-ReadsZero :
    (c : Rodata) (o : Option TaskCtx) (s : Stats)
    → ReadsZero s
    → ReadsZero (consume_irq_wake_get_tier_slice c o s).stats
unfolding consume_irq_wake_get_tier_slice
taken-ReadsZero c none s zero_at = zero_at
taken-ReadsZero c (some t) s zero_at = ground arith

count_idle-ReadsZero :
    (c : Rodata) (tier : ℕ) (s : Stats) → ReadsZero s → ReadsZero (count_idle c tier s)
unfolding count_idle
count_idle-ReadsZero c tier s zero_at = ground arith

direct-AllReadZero :
    (k : Kernel) (c : Rodata) (env : SelEnv) (w : World) (p cpu : ℕ)
    → AllReadZero w
    → AllReadZero (direct k c env w p cpu).outcome.world
unfolding direct
direct-AllReadZero k c env w p cpu zero_at =
    let here = cpu_idx env.cpu in
    let taken = consume_irq_wake_get_tier_slice c (w.tasks p) (w.global_stats here) in
    update-AllReadZero w (direct k c env w p cpu).outcome.world here
      (count_idle c taken.tier taken.stats) refl
      (count_idle-ReadsZero c taken.tier taken.stats
        (taken-ReadsZero c (w.tasks p) (w.global_stats here) (every_cpu w zero_at here)))
      zero_at

pub imperator_select_cpu-AllReadZero :
    (k : Kernel) (c : Rodata) (env : SelEnv) (w : World) (p : ℕ)
    → AllReadZero w
    → AllReadZero (imperator_select_cpu k c env w p).outcome.world
unfolding imperator_select_cpu
imperator_select_cpu-AllReadZero k c env w p zero_at =
    elim (Bool-cases (env.dfl_first env.prev_cpu).idle) [
      | inl e ↦
          rw e (
            direct-AllReadZero k c env _ p _ (same-AllReadZero w _ (stamp_stats k env w p) zero_at))
      | inr e ↦ rw e (same-AllReadZero w _ (stamp_stats k env w p) zero_at)
    ]

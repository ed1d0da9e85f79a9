-- ===== src/Reclassify/Preserve.antt =====
-- A reclassification keeps a task context well formed.
use scx_imperator.Common.{ℕ, ◌^◌, ◌<◌, ◌≡◌, arith, Bool, not, ◌==◌, ◌&&◌, Bool-cases, inl, inr}
use scx_imperator.Intf.{get_tier, get_stable, put_stable_tier, flow_new, has_flag}
use scx_imperator.Intf.Laws.{get_stable-lt, put_stable_tier-lt, clear_flag-lt, reset_stable-lt}
use scx_imperator.Intf.Fused.{pack_deficit_avg-lt, extract_avg_rt-lt}
use scx_imperator.State.{TaskCtx, Rodata, tier_slice}
use scx_imperator.Task.{IsWf}
use scx_imperator.Reclassify.{
  Verdict, check_overrun, next_stable, repack, new_avg, new_deficit, verdict, full_reclassify,
  backoff, bout_us, burst_us, accumulate, count_stop, recheck_due, reclassify_task_cold,
}
use scx_imperator.Reclassify.Average.{ewma-lt, burst_us-lt}
use scx_imperator.Reclassify.Tier.{classify-lt, hard_demote-classify}

pub tier_slice-lt : (c : Rodata) (t : ℕ) → tier_slice c t < 2 ^ 64
unfolding tier_slice
tier_slice-lt c t = omega arith

pub record IsVerdict (v : Verdict) : Type 0 where
  pub tier_fits : v.tier < 4
  pub history_fits : v.history < 2 ^ 8
  pub stable_fits : v.stable < 4

check_overrun-IsVerdict :
    (old rt new stable history : ℕ)
    → new < 4
    → stable < 4
    → history < 2 ^ 8
    → IsVerdict (check_overrun old rt new stable history)
unfolding check_overrun
check_overrun-IsVerdict old rt new stable history hn hs hh = ground arith

pub verdict-IsVerdict : (r : Bool) (rt : ℕ) (t : TaskCtx) → IsWf t → IsVerdict (verdict r rt t)
unfolding verdict
verdict-IsVerdict r rt t wf =
    check_overrun-IsVerdict (get_tier t.packed_info) rt _ _ t.overrun_count
      (rw
        (hard_demote-classify (get_tier t.packed_info) (new_avg r rt t) (get_stable t.packed_info))
        (classify-lt _ _))
      (get_stable-lt t.packed_info) wf.history_fits

pub next_stable-lt : (changed : Bool) (s : ℕ) → next_stable changed s < 4
unfolding next_stable
next_stable-lt changed s = ground arith

pub repack-lt :
    (packed old : ℕ) (v : Verdict) (e : Bool)
    → packed < 2 ^ 32
    → IsVerdict v
    → repack packed old v e < 2 ^ 32
unfolding repack
repack-lt packed old v e hp hv = ground (
  arith,
  next_stable-lt (not (v.tier == old)) v.stable,
  put_stable_tier-lt (next_stable (not (v.tier == old)) v.stable) v.tier packed,
  clear_flag-lt flow_new
      (put_stable_tier (next_stable (not (v.tier == old)) v.stable) v.tier packed),
)

pub new_avg-lt : (r : Bool) (rt : ℕ) (t : TaskCtx) → new_avg r rt t < 2 ^ 16
unfolding new_avg
new_avg-lt r rt t = ewma-lt r _ rt (extract_avg_rt-lt t.deficit_avg_fused)

pub full_reclassify-IsWf :
    (c : Rodata) (r : Bool) (rt bout : ℕ) (t : TaskCtx)
    → IsWf t
    → IsWf (full_reclassify c r rt bout t)
unfolding full_reclassify
full_reclassify-IsWf c r rt bout t wf =
    let v = verdict-IsVerdict r rt t wf in
    ground (
      arith,
      tier_slice-lt c (verdict r rt t).tier,
      pack_deficit_avg-lt (new_deficit bout t) (new_avg r rt t) (new_avg-lt r rt t),
      repack-lt t.packed_info (get_tier t.packed_info) (verdict r rt t)
          ((new_deficit bout t == 0) && has_flag flow_new t.packed_info) wf.packed_fits v,
    )

pub backoff-IsWf : (r : Bool) (rt bout : ℕ) (t : TaskCtx) → IsWf t → IsWf (backoff r rt bout t)
unfolding backoff
backoff-IsWf r rt bout t wf = ground (
  arith,
  pack_deficit_avg-lt (new_deficit bout t) (new_avg r rt t) (new_avg-lt r rt t),
  reset_stable-lt t.packed_info,
)

pub accumulate-IsWf :
    (r : Bool) (rt : ℕ) (t : TaskCtx) → rt < 2 ^ 16 → IsWf t → IsWf (accumulate r rt t)
unfolding accumulate
accumulate-IsWf r rt t h wf = ground arith

pub count_stop-IsWf : (t : TaskCtx) → IsWf t → IsWf (count_stop t)
unfolding count_stop
count_stop-IsWf t wf = ground arith

-- Whatever the task did, a reclassification leaves every field within its width.
pub reclassify_task_cold-IsWf :
    (c : Rodata) (r : Bool) (now : ℕ) (t : TaskCtx) → IsWf t → IsWf (reclassify_task_cold c r now t)
unfolding reclassify_task_cold
reclassify_task_cold-IsWf c r now t wf = elim (Bool-cases (t.last_run_at == 0)) [
  | inl never ↦ rw never wf
  | inr ran ↦ rw ran (elim (Bool-cases (get_stable t.packed_info == 3)) [
    | inl stable ↦ rw stable (elim (Bool-cases (recheck_due t)) [
      | inl due ↦ rw due (full_reclassify-IsWf c r rt bout _ (count_stop-IsWf _ wf1))
      | inr early ↦ rw early (backoff-IsWf r rt bout _ (count_stop-IsWf _ wf1))
    ])
    | inr moving ↦ rw moving (full_reclassify-IsWf c r rt bout _ wf1)
  ])
]
  where
    bout : ℕ
    bout = bout_us now t.last_run_at

    rt : ℕ
    rt = burst_us t.burst_acc_us bout

    wf1 : IsWf (accumulate r rt t)
    wf1 = accumulate-IsWf r rt t (burst_us-lt t.burst_acc_us bout) wf

full_spent :
    (c : Rodata) (r : Bool) (rt bout : ℕ) (t : TaskCtx)
    → t.burst_credit ≡ 0
    → (full_reclassify c r rt bout t).burst_credit ≡ 0
unfolding full_reclassify
full_spent c r rt bout t h = ground arith

-- A reclassification grants no burst credit.
pub reclassify_task_cold_spent :
    (c : Rodata) (r : Bool) (now : ℕ) (t : TaskCtx)
    → t.burst_credit ≡ 0
    → (reclassify_task_cold c r now t).burst_credit ≡ 0
unfolding reclassify_task_cold backoff accumulate count_stop
reclassify_task_cold_spent c r now t h =
    let bout = bout_us now t.last_run_at in
    let rt = burst_us t.burst_acc_us bout in
    let t1 = accumulate r rt t in
    let plain = full_spent c r rt bout t1 h in
    let counted = full_spent c r rt bout (count_stop t1) h in ground arith

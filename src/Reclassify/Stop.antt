-- ===== src/Reclassify/Stop.antt =====
-- Which path a stop takes, and what holds on all of them.
use scx_imperator.Common.{
  ℕ, ◌≤◌, ◌≡◌, ◌≢◌, inl, inr, refl, arith, Bool, true, false, not, ◌==◌, ◌&&◌, Bool-cases,
}
use scx_imperator.Intf.{get_tier, get_stable, extract_avg_rt}
use scx_imperator.Intf.Laws.{get_tier-reset_stable}
use scx_imperator.Intf.Fused.{extract_avg_rt-pack, extract_avg_rt-lt}
use scx_imperator.State.{TaskCtx, Rodata, tier_slice}
use scx_imperator.Task.{IsWf}
use scx_imperator.Reclassify.{
  ewma, new_avg, new_deficit, full_reclassify, backoff, bout_us, burst_us, accumulate, count_stop,
  recheck_due, reclassify_task_cold,
}
use scx_imperator.Reclassify.Average.{burst_us-lt, ewma_between}
use scx_imperator.Reclassify.Preserve.{new_avg-lt, accumulate-IsWf, count_stop-IsWf}
use scx_imperator.Reclassify.Paths.{full_reclassify_lem}

-- The stop returns early: the tier has been stable and the recheck is not due.
abbrev pub early : TaskCtx → Bool
early t = (get_stable t.packed_info == 3) && not (recheck_due t)

-- The burst that a stop at `now` is judged by, and the context as the paths find it.
abbrev pub judged : ℕ → TaskCtx → ℕ
judged now t = burst_us t.burst_acc_us (bout_us now t.last_run_at)

abbrev pub at_stop : Bool → ℕ → TaskCtx → TaskCtx
at_stop r now t = accumulate r (judged now t) t

module _ (c : Rodata) (r : Bool) (now : ℕ) (t : TaskCtx) (ran : t.last_run_at ≢ 0) where
  stop_early :
      early t ≡ true
      → reclassify_task_cold c r now t
        ≡ backoff r (judged now t) (bout_us now t.last_run_at) (count_stop (at_stop r now t))
  unfolding reclassify_task_cold
  stop_early h = ground arith

  -- The context that the full path starts from: the counter has moved if the tier was stable.
  stop_full :
      early t ≡ false
      → (s : TaskCtx) × (reclassify_task_cold c r now t
          ≡ full_reclassify c r (judged now t) (bout_us now t.last_run_at) s)
        × (IsWf t → IsWf s)
        × (s.packed_info ≡ t.packed_info)
        × (s.deficit_avg_fused ≡ t.deficit_avg_fused)
  unfolding reclassify_task_cold accumulate count_stop
  stop_full h = elim (Bool-cases (get_stable t.packed_info == 3)) [
    | inl stable ↦ (
      count_stop (at_stop r now t),
      ground arith,
      λ wf. count_stop-IsWf _ (accumulate-IsWf r _ t (burst_us-lt _ _) wf),
      refl,
      refl,
    )
    | inr moving ↦ (
      at_stop r now t,
      ground arith,
      λ wf. accumulate-IsWf r _ t (burst_us-lt _ _) wf,
      refl,
      refl,
    )
  ]

backoff_lem :
    (r : Bool) (rt bout : ℕ) (t : TaskCtx)
    → IsWf t
    → let t' = backoff r rt bout t in
      (get_tier t'.packed_info ≡ get_tier t.packed_info)
      × (t'.next_slice ≡ t.next_slice)
      × (t'.burst_credit ≡ t.burst_credit)
      × (extract_avg_rt t'.deficit_avg_fused ≡ new_avg r rt t)
unfolding backoff
backoff_lem r rt bout t wf = ground (
  arith,
  get_tier-reset_stable t.packed_info wf.packed_fits,
  extract_avg_rt-pack (new_deficit bout t) (new_avg r rt t) (new_avg-lt r rt t),
)

-- Where a stop takes the full path, the slice becomes the one that belongs to the task's tier. Where
-- it returns early, tier and slice both stay as they were, also if the slice had been extended.
pub reclassify_slice :
    (c : Rodata) (r : Bool) (now : ℕ) (t : TaskCtx)
    → IsWf t
    → t.last_run_at ≢ 0
    → let t' = reclassify_task_cold c r now t in
      (early t ≡ false → t'.next_slice ≡ tier_slice c (get_tier t'.packed_info))
      × (early t ≡ true
          → (t'.next_slice ≡ t.next_slice) × (get_tier t'.packed_info ≡ get_tier t.packed_info))
reclassify_slice c r now t wf ran = (full, returned)
  where
    full :
        early t ≡ false
        → (reclassify_task_cold c r now t).next_slice
          ≡ tier_slice c (get_tier (reclassify_task_cold c r now t).packed_info)
    full h =
        let (s, e, wfs, _, _) = stop_full c r now t ran h in
        rw e ((full_reclassify_lem c r (judged now t) (bout_us now t.last_run_at) s (wfs wf)).1)

    returned :
        early t ≡ true
        → ((reclassify_task_cold c r now t).next_slice ≡ t.next_slice)
          × (get_tier (reclassify_task_cold c r now t).packed_info ≡ get_tier t.packed_info)
    returned h =
        let s = count_stop (at_stop r now t) in
        let b =
          backoff_lem r (judged now t) (bout_us now t.last_run_at) s
            (count_stop-IsWf _ (accumulate-IsWf r _ t (burst_us-lt _ _) wf)) in
        rw (stop_early c r now t ran h) (unfold accumulate count_stop in (b.1, b.0))

-- On every path the average that is stored is the moving average of the burst since the task last
-- slept.
pub reclassify_average :
    (c : Rodata) (r : Bool) (now : ℕ) (t : TaskCtx)
    → IsWf t
    → t.last_run_at ≢ 0
    → extract_avg_rt (reclassify_task_cold c r now t).deficit_avg_fused
      ≡ ewma r (extract_avg_rt t.deficit_avg_fused) (judged now t)
unfolding new_avg accumulate count_stop
reclassify_average c r now t wf ran = elim (Bool-cases (early t)) [
  | inl h ↦
      rw (stop_early c r now t ran h)
        (backoff_lem r (judged now t) (bout_us now t.last_run_at) (count_stop (at_stop r now t))
          (count_stop-IsWf _ (accumulate-IsWf r _ t (burst_us-lt _ _) wf))).3
  | inr h ↦
      let (s, e, wfs, _, same) = stop_full c r now t ran h in
      rw
        (e, (full_reclassify_lem c r (judged now t) (bout_us now t.last_run_at) s (wfs wf)).2, same)
        refl
]

-- A stop of a task that was preempted never lowers its average runtime.
pub reclassify_preempted :
    (c : Rodata) (now : ℕ) (t : TaskCtx)
    → IsWf t
    → t.last_run_at ≢ 0
    → extract_avg_rt t.deficit_avg_fused
      ≤ extract_avg_rt (reclassify_task_cold c true now t).deficit_avg_fused
reclassify_preempted c now t wf ran =
    rw (reclassify_average c true now t wf ran)
      ((ewma_between true _ (judged now t) (extract_avg_rt-lt _) (burst_us-lt _ _)).2 refl)

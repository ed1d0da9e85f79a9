-- ===== src/Reclassify/Paths.antt =====
-- What a reclassification writes, on its full path and on its early return.
use scx_imperator.Common.{ℕ, ◌^◌, ◌<◌, ◌≡◌, ◌⊎◌, refl, arith, Bool, true, not, ◌==◌, ◌&&◌}
use scx_imperator.Intf.{
  FlowFlag, flow_new, lock_holder, irq_wake, get_tier, get_stable, has_flag, put_stable_tier,
  extract_avg_rt, extract_deficit,
}
use scx_imperator.Intf.Laws.{
  put_stable_tier-lt, get_tier-put_stable_tier, get_stable-put_stable_tier,
  has_flag-put_stable_tier, get_tier-clear_flag, get_stable-clear_flag, has_flag-clear_flag,
  same_flag,
}
use scx_imperator.Intf.Fused.{extract_avg_rt-pack, extract_deficit-pack, extract_deficit-lt}
use scx_imperator.State.{TaskCtx, Rodata, tier_slice}
use scx_imperator.Task.{IsWf}
use scx_imperator.Reclassify.{
  Verdict, next_stable, repack, check_overrun, verdict, new_avg, new_deficit, full_reclassify,
}
use scx_imperator.Reclassify.Preserve.{IsVerdict, verdict-IsVerdict, next_stable-lt, new_avg-lt}
use scx_imperator.Reclassify.Average.{spend_deficit-le}

-- A forced demotion changes the tier, so an unchanged tier keeps the stability counter.
check_overrun_stable :
    (old rt new stable history : ℕ)
    → (check_overrun old rt new stable history).tier ≡ old
    → (check_overrun old rt new stable history).stable ≡ stable
unfolding check_overrun
check_overrun_stable old rt new stable history h = ground arith

verdict_stable :
    (r : Bool) (rt : ℕ) (t : TaskCtx)
    → (verdict r rt t).tier ≡ get_tier t.packed_info
    → (verdict r rt t).stable ≡ get_stable t.packed_info
unfolding verdict
verdict_stable r rt t h =
    check_overrun_stable (get_tier t.packed_info) rt _ (get_stable t.packed_info) _ h

module _ (packed : ℕ) (v : Verdict) (e : Bool) (wf : IsVerdict v)
    (kept : v.tier ≡ get_tier packed → v.stable ≡ get_stable packed) where
  abbrev stable' : ℕ
  stable' = next_stable (not (v.tier == get_tier packed)) v.stable

  abbrev merged : ℕ
  merged = put_stable_tier stable' v.tier packed

  merged-lt : merged < 2 ^ 32
  merged-lt = put_stable_tier-lt stable' v.tier packed (next_stable-lt _ _) wf.tier_fits

  repack_tier : get_tier (repack packed (get_tier packed) v e) ≡ v.tier
  unfolding repack
  repack_tier = ground (
    arith,
    get_tier-put_stable_tier stable' v.tier packed (next_stable-lt _ _) wf.tier_fits,
    get_tier-clear_flag flow_new merged merged-lt,
  )

  repack_stable : get_stable (repack packed (get_tier packed) v e) ≡ stable'
  unfolding repack
  repack_stable = ground (
    arith,
    kept,
    get_stable-put_stable_tier stable' v.tier packed (next_stable-lt _ _) wf.tier_fits,
    get_stable-clear_flag flow_new merged merged-lt,
  )

  repack_flag :
      (f : FlowFlag)
      → has_flag f (repack packed (get_tier packed) v e)
        ≡ (not (e && same_flag flow_new f) && has_flag f packed)
  unfolding repack
  repack_flag f = ground (
    arith,
    has_flag-put_stable_tier stable' v.tier packed (next_stable-lt _ _) wf.tier_fits f,
    has_flag-clear_flag flow_new f merged merged-lt,
  )

new_deficit-lt : (bout : ℕ) (t : TaskCtx) → new_deficit bout t < 2 ^ 16
unfolding new_deficit
new_deficit-lt bout t = omega (
  arith,
  spend_deficit-le (extract_deficit t.deficit_avg_fused) bout,
  extract_deficit-lt t.deficit_avg_fused,
)

next_stable_changed : (s : ℕ) → next_stable true s ≡ 0
unfolding next_stable
next_stable_changed s = refl

-- A full reclassification stores the verdict's tier, with the slice that belongs to that tier, the
-- new average and deficit; the lock and IRQ flags stay, and the new-flow flag goes exactly when the
-- deficit is used up. A change of tier starts the stability counter, the recheck counter and the
-- burst credit anew.
pub full_reclassify_lem :
    (c : Rodata) (r : Bool) (rt bout : ℕ) (t : TaskCtx)
    → IsWf t
    → let t' = full_reclassify c r rt bout t in
      (get_tier t'.packed_info ≡ (verdict r rt t).tier)
      × (t'.next_slice ≡ tier_slice c (get_tier t'.packed_info))
      × (extract_avg_rt t'.deficit_avg_fused ≡ new_avg r rt t)
      × (extract_deficit t'.deficit_avg_fused ≡ new_deficit bout t)
      × (has_flag lock_holder t'.packed_info ≡ has_flag lock_holder t.packed_info)
      × (has_flag irq_wake t'.packed_info ≡ has_flag irq_wake t.packed_info)
      × (has_flag flow_new t'.packed_info
          ≡ (not (new_deficit bout t == 0) && has_flag flow_new t.packed_info))
      × ((get_tier t'.packed_info ≡ get_tier t.packed_info)
          ⊎ ((get_stable t'.packed_info ≡ 0) × (t'.reclass_counter ≡ 0) × (t'.burst_credit ≡ 0)))
unfolding full_reclassify
full_reclassify_lem c r rt bout t wf = ground (
  arith,
  repack_tier t.packed_info v e vwf kept,
  repack_stable t.packed_info v e vwf kept,
  repack_flag t.packed_info v e vwf kept lock_holder,
  repack_flag t.packed_info v e vwf kept irq_wake,
  repack_flag t.packed_info v e vwf kept flow_new,
  extract_avg_rt-pack (new_deficit bout t) (new_avg r rt t) (new_avg-lt r rt t),
  extract_deficit-pack (new_deficit bout t) (new_avg r rt t) (new_avg-lt r rt t),
  new_deficit-lt bout t,
  next_stable_changed v.stable,
)
  where
    v : Verdict
    v = verdict r rt t

    e : Bool
    e = (new_deficit bout t == 0) && has_flag flow_new t.packed_info

    vwf : IsVerdict v
    vwf = verdict-IsVerdict r rt t wf

    kept : v.tier ≡ get_tier t.packed_info → v.stable ≡ get_stable t.packed_info
    kept = verdict_stable r rt t

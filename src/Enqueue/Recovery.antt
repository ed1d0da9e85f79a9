-- ===== src/Enqueue/Recovery.antt =====
-- The post-sleep recovery of imperator_enqueue: after a sleep of more than 500 ms the average goes
-- half the way to its tier's midpoint.
use scx_imperator.Common.{
  ℕ, ◌+◌, ◌/◌, ◌^◌, ◌≤◌, ◌<◌, ◌≡◌, ◌≢◌, ◌⊎◌, arith, ltb, ◌==◌, if◌then◌else◌, u16, u32, sub_u32,
  table4,
}
use scx_imperator.Intf.{cake_tier_idx, get_tier, extract_avg_rt, extract_deficit, pack_deficit_avg}
use scx_imperator.Intf.Laws.{get_tier-lt}
use scx_imperator.Intf.Fused.{
  cake_tier_idx-arith, extract_avg_rt-pack, extract_avg_rt-lt, extract_deficit-pack,
  extract_deficit-lt, pack_deficit_avg-lt,
}
use scx_imperator.State.{TaskCtx}
use scx_imperator.Task.{IsWf}

-- tier_sleep_mid
abbrev pub tier_sleep_mid : ℕ → ℕ
tier_sleep_mid = table4 50 1050 5000 8001

-- One step towards the midpoint.
pub halve_to_mid : TaskCtx → TaskCtx
halve_to_mid t =
    let cur = extract_avg_rt t.deficit_avg_fused in
    let mid = tier_sleep_mid (cake_tier_idx (get_tier t.packed_info)) in
    record t {
      deficit_avg_fused =
          pack_deficit_avg (extract_deficit t.deficit_avg_fused) (u16 ((cur + mid) / 2));
    }

pub slept_ns : ℕ → TaskCtx → ℕ
slept_ns now t = sub_u32 (u32 now) t.sleep_entry_time

pub recover_from_sleep : ℕ → TaskCtx → TaskCtx
recover_from_sleep now t =
    let t' = (if ltb 500000000 (slept_ns now t) then halve_to_mid t else t) in
    if t.sleep_entry_time == 0 then t else record t' { sleep_entry_time = 0 }

halved : TaskCtx → ℕ
halved t = u16 (
    (extract_avg_rt t.deficit_avg_fused + tier_sleep_mid (cake_tier_idx (get_tier t.packed_info)))
    / 2)

halved-lt : (t : TaskCtx) → halved t < 2 ^ 16
unfolding halved
halved-lt t = omega arith

pub recover_from_sleep-IsWf : (now : ℕ) (t : TaskCtx) → IsWf t → IsWf (recover_from_sleep now t)
unfolding recover_from_sleep halve_to_mid halved
recover_from_sleep-IsWf now t wf =
    ground
      (arith, pack_deficit_avg-lt (extract_deficit t.deficit_avg_fused) (halved t) (halved-lt t))

-- The sleep stamp is consumed. A sleep of more than 500 ms, as far as the 32-bit clock tells, moves
-- the average to halfway between it and the midpoint of the task's tier; after any other, or without
-- a stamp, it stays. The deficit, the tier and the flags stay in any case.
pub recover_from_sleep_lem :
    (now : ℕ) (t : TaskCtx)
    → IsWf t
    → let t' = recover_from_sleep now t in
      let avg = extract_avg_rt t.deficit_avg_fused in
      (t'.sleep_entry_time ≡ 0)
      × (t.sleep_entry_time ≢ 0
          → 500000000 < slept_ns now t
          → extract_avg_rt t'.deficit_avg_fused
            ≡ (avg + tier_sleep_mid (get_tier t.packed_info)) / 2)
      × ((t.sleep_entry_time ≡ 0) ⊎ (slept_ns now t ≤ 500000000)
          → t'.deficit_avg_fused ≡ t.deficit_avg_fused)
      × (extract_deficit t'.deficit_avg_fused ≡ extract_deficit t.deficit_avg_fused)
      × (t'.packed_info ≡ t.packed_info)
unfolding recover_from_sleep halve_to_mid halved
recover_from_sleep_lem now t wf =
    let idx : cake_tier_idx (get_tier t.packed_info) ≡ get_tier t.packed_info = omega (
      arith,
      cake_tier_idx-arith (get_tier t.packed_info),
      get_tier-lt t.packed_info wf.packed_fits,
    ) in
    let avg = extract_avg_rt-pack (extract_deficit t.deficit_avg_fused) (halved t) (halved-lt t) in
    let small = extract_avg_rt-lt t.deficit_avg_fused in
    let deficit =
      extract_deficit-pack (extract_deficit t.deficit_avg_fused) (halved t) (halved-lt t)
        (extract_deficit-lt t.deficit_avg_fused) in
    (
      ground arith,
      λ h k. ground (arith, idx, avg, small),
      λ h. ground arith,
      ground (arith, deficit),
      ground arith,
    )

pub recover_from_sleep_keeps :
    (now : ℕ) (t : TaskCtx)
    → let t' = recover_from_sleep now t in
      (t'.burst_credit ≡ t.burst_credit)
      × (t'.packed_info ≡ t.packed_info)
      × (t'.next_slice ≡ t.next_slice)
unfolding recover_from_sleep halve_to_mid
recover_from_sleep_keeps now t = (ground arith, ground arith, ground arith)

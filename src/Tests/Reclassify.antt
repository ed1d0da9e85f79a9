-- ===== src/Tests/Reclassify.antt =====
-- reclassify_task_cold, tier_deadline and the packed words of src/bpf at concrete inputs.
use scx_imperator.Common.{
  ℕ, ◌*◌, ◌^◌, ◌≤◌, ◌<◌, ◌≡◌, ◌⊎◌, Bool, true, false, not, ◌&&◌, ◌==◌, List, [], ◌∷◌, ◌++◌, refl,
  arith, test_bit,
}
use scx_imperator.Compat.{bit_scan_forward_u64, bit_scan_forward_u32}
use scx_imperator.Compat.Scan.{bit_scan_forward_lem}
use scx_imperator.Intf.{
  get_tier, get_stable, has_flag, flow_new, lock_holder, irq_wake, extract_avg_rt, extract_deficit,
  pack_config, unpack_multiplier, unpack_quantum_ns, unpack_starvation_ns,
}
use scx_imperator.Intf.Fused.{unpack-pack_config}
use scx_imperator.State.{tier_slice}
use scx_imperator.Reclassify.{
  reclassify_task_cold, full_reclassify, verdict, new_avg, new_deficit, ewma, classify, hard_demote,
  check_overrun,
}
use scx_imperator.Reclassify.Paths.{full_reclassify_lem}
use scx_imperator.Reclassify.Stop.{early, judged, reclassify_slice, reclassify_average}
use scx_imperator.Reclassify.Tier.{hard_demote-classify}
use scx_imperator.Reclassify.History.{check_overrun_window, overruns, is_over, record_outcomes}
use scx_imperator.Tests.Data.{task, task-IsWf, rodata}

reclassify_slice_example :
    let t' = reclassify_task_cold rodata false 3000000 task in
    (early task ≡ false → t'.next_slice ≡ tier_slice rodata (get_tier t'.packed_info))
    × (early task ≡ true
        → (t'.next_slice ≡ task.next_slice) × (get_tier t'.packed_info ≡ get_tier task.packed_info))
reclassify_slice_example = reclassify_slice rodata false 3000000 task task-IsWf (omega arith)

reclassify_average_example :
    extract_avg_rt (reclassify_task_cold rodata false 3000000 task).deficit_avg_fused
    ≡ ewma false (extract_avg_rt task.deficit_avg_fused) (judged 3000000 task)
reclassify_average_example = reclassify_average rodata false 3000000 task task-IsWf (omega arith)

full_reclassify_lem_example :
    let t' = full_reclassify rodata false 2929 2929 task in
    (get_tier t'.packed_info ≡ (verdict false 2929 task).tier)
    × (t'.next_slice ≡ tier_slice rodata (get_tier t'.packed_info))
    × (extract_avg_rt t'.deficit_avg_fused ≡ new_avg false 2929 task)
    × (extract_deficit t'.deficit_avg_fused ≡ new_deficit 2929 task)
    × (has_flag lock_holder t'.packed_info ≡ has_flag lock_holder task.packed_info)
    × (has_flag irq_wake t'.packed_info ≡ has_flag irq_wake task.packed_info)
    × (has_flag flow_new t'.packed_info
        ≡ (not (new_deficit 2929 task == 0) && has_flag flow_new task.packed_info))
    × ((get_tier t'.packed_info ≡ get_tier task.packed_info)
        ⊎ ((get_stable t'.packed_info ≡ 0) × (t'.reclass_counter ≡ 0) × (t'.burst_credit ≡ 0)))
full_reclassify_lem_example = full_reclassify_lem rodata false 2929 2929 task task-IsWf

hard_demote-classify_example : hard_demote 9000 2 (classify 1 9000) ≡ classify 1 9000
hard_demote-classify_example = hard_demote-classify 1 9000 2

abbrev outcomes : List Bool
outcomes = true ∷ false ∷ true ∷ false ∷ true ∷ false ∷ false ∷ []

check_overrun_window_example :
    let v = check_overrun 1 5000 1 0 (record_outcomes 0 outcomes) in
    (4 ≤ overruns (is_over 1 5000 ∷ outcomes)
      → (1 < v.tier) × (1 ≤ v.tier) × (v.history ≡ 0) × (v.stable ≡ 0))
    × (overruns (is_over 1 5000 ∷ outcomes) < 4
        → (v.tier ≡ 1)
          × (v.stable ≡ 0)
          × (v.history ≡ record_outcomes 0 (outcomes ++ is_over 1 5000 ∷ [])))
check_overrun_window_example = check_overrun_window 1 5000 1 0 0 outcomes (omega arith) refl

bit_scan_forward_lem_example :
    (40 < 2 ^ 64
      → (test_bit 40 (bit_scan_forward_u64 40) ≡ true)
        × (bit_scan_forward_u64 40 < 64)
        × ((i : ℕ) → i < bit_scan_forward_u64 40 → test_bit 40 i ≡ false))
    × (40 < 2 ^ 32
        → (test_bit 40 (bit_scan_forward_u32 40) ≡ true)
          × (bit_scan_forward_u32 40 < 32)
          × ((i : ℕ) → i < bit_scan_forward_u32 40 → test_bit 40 i ≡ false))
bit_scan_forward_lem_example = bit_scan_forward_lem 40 (omega arith)

unpack-pack_config_example :
    (unpack_multiplier (pack_config 1953 1024 7812) ≡ 1024)
    × (unpack_quantum_ns (pack_config 1953 1024 7812) ≡ 1953 * 1024)
    × (unpack_starvation_ns (pack_config 1953 1024 7812) ≡ 7812 * 1024)
unpack-pack_config_example =
    unpack-pack_config 1953 1024 7812 (omega arith) (omega arith) (omega arith)

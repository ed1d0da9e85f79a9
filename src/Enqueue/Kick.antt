-- ===== src/Enqueue/Kick.antt =====
-- The preemption kick of imperator_enqueue: the victim is found in the CPU masks.
pub mod Victim
pub mod Quiet
use scx_imperator.Common.{
  ℕ, ◌+◌, ◌^◌, ◌≤◌, ◌<◌, ◌≡◌, ◌⊎◌, inl, inr, refl, arith, Bool, true, false, ◌&&◌, List, [], ◌∷◌,
  bit_and, ltb, leb, if◌then◌else◌, test_bit, test_bit-bit_and, test_bit-zero,
}
use scx_imperator.Intf.{cake_tier_bulk, cake_tier_frame, cake_tier_interact, llc_idx}
use scx_imperator.Compat.{bit_scan_forward_u64}
use scx_imperator.Compat.Scan.{bit_scan_forward_lem}
use scx_imperator.State.{World, Kernel, Call, kick_cpu}

-- `tier_cpu_mask[tier] & llc_cpu_mask[enq_llc & (CAKE_MAX_LLCS - 1)]`
pub tier_in_llc : World → ℕ → ℕ → ℕ
tier_in_llc w llc tier = bit_and (w.tier_cpu_mask tier) (w.llc_cpu_mask (llc_idx llc))

pub kick_victim : Kernel → World → ℕ → ℕ → List Call
kick_victim k w llc tier =
    let t3_in_llc = tier_in_llc w llc cake_tier_bulk in
    let t2_in_llc = tier_in_llc w llc cake_tier_frame in
    if leb tier cake_tier_interact
    then (if ltb 0 t3_in_llc
        then kick_cpu (bit_scan_forward_u64 t3_in_llc) k.kick_preempt ∷ []
        else if ltb 0 t2_in_llc
        then kick_cpu (bit_scan_forward_u64 t2_in_llc) k.kick_preempt ∷ []
        else [])
    else []

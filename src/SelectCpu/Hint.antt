-- ===== src/SelectCpu/Hint.antt =====
-- imperator_select_cpu of src/bpf/imperator.bpf.c: the scan for a P-core to prefer over an idle
-- E-core. A CPU of -1 is `none` here.
pub mod Scan
pub mod First
use scx_imperator.Common.{
  ℕ, zero, suc, ◌-◌, ◌^◌, Bool, true, false, not, ◌&&◌, Option, none, some, bit_and, ltb, ◌==◌,
  if◌then◌else◌, u64, not_u64,
}
use scx_imperator.Intf.{cpu_idx, cake_max_cpus}
use scx_imperator.Compat.{bit_scan_forward_u64}
use scx_imperator.State.{Rodata}

-- best_full, best_half
pub record Best : Type 0 where
  pub full : Option ℕ
  pub half : Option ℕ

abbrev pub is_set : Option ℕ → Bool
is_set none = false
is_set (some x) = true

-- `if (best < 0) best = pcpu`
abbrev pub first_of : Option ℕ → ℕ → Option ℕ
first_of none pcpu = some pcpu
first_of (some x) pcpu = some x

-- `full_idle`, with the two tests before it: no other CPU shares the core.
unfoldable pub full_idle : Rodata → ℕ → Bool
full_idle c pcpu =
    let core_id = c.cpu_core_id (cpu_idx pcpu) in
    let cmask = c.core_cpu_mask core_id in
    ltb core_id cake_max_cpus && not (cmask == 0) && (bit_and cmask (not_u64 (u64 (2 ^ pcpu))) == 0)

-- One allowed candidate.
pub judge : Rodata → ℕ → Best → Best
judge c pcpu b =
    if full_idle c pcpu && not (is_set b.full)
    then record b { full = some pcpu }
    else record b { half = first_of b.half pcpu }

-- The loop over the candidates, which ends at the first full one.
pub scan : Rodata → (ℕ → Bool) → (fuel candidate_mask : ℕ) → Best → Best
scan c allowed zero candidate_mask b = b
scan c allowed (suc fuel) candidate_mask b =
    let pcpu = bit_scan_forward_u64 candidate_mask in
    let candidates = bit_and candidate_mask (candidate_mask - 1) in
    let b' = judge c pcpu b in
    let skipped = scan c allowed fuel candidates b in
    let rest = scan c allowed fuel candidates b' in
    if candidate_mask == 0
    then b
    else if allowed pcpu
    then (if is_set b'.full then b' else rest)
    else skipped

-- `best_full >= 0 ? best_full : best_half`
abbrev pub prefer : Option ℕ → Option ℕ → Option ℕ
prefer none half = half
prefer (some x) half = some x

pub pcpu_hint : Rodata → (ℕ → Bool) → Option ℕ
pcpu_hint c allowed =
    let b = scan c allowed cake_max_cpus c.big_cpu_mask (record { full = none; half = none }) in
    prefer b.full b.half

-- ===== src/Deadline.antt =====
-- tier_deadline of src/bpf/imperator.bpf.c: the key by which an LLC's queue is ordered.
pub mod Order
use scx_imperator.Common.{ℕ, ◌+◌, ◌-◌, ◌%◌, ◌^◌, Bool, ◌&&◌, ltb, if◌then◌else◌, u64}
use scx_imperator.Intf.{cake_tier_idx, cake_tier_critical, unpack_starvation_ns}
use scx_imperator.State.{Rodata}

-- UNPACK_STARVATION_NS of an entry of `tier_configs`.
pub budget : Rodata → ℕ → ℕ
budget c t = unpack_starvation_ns (c.tier_configs t)

-- `budget > above ? budget - above - 1 : 0`
pub budget_gap : ℕ → ℕ → ℕ
budget_gap budget above = if ltb above budget then budget - above - 1 else 0

-- An advance is cut below the gap to the budget of the tier above; T0 has none above it.
pub capped_advance : Rodata → ℕ → ℕ → ℕ
unfolding budget_gap
capped_advance c t advance =
    let gap = budget_gap (budget c t) (budget c (cake_tier_idx (t - 1))) in
    if ltb 0 advance && ltb cake_tier_critical t
    then (if ltb gap advance then gap else advance)
    else advance

pub tier_deadline : Rodata → ℕ → ℕ → ℕ → ℕ
unfolding capped_advance
tier_deadline c now tier advance =
    let t = cake_tier_idx tier in
    let adv = capped_advance c t advance in
    let dl = u64 (now + budget c t) in if ltb adv dl then dl - adv else 0

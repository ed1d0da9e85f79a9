-- ===== src/Reclassify/Tier.antt =====
-- The tier that an average runtime earns: hysteresis, the cap, and the bit history.
use scx_imperator.Common.{ℕ, suc, ◌*◌, ◌≤◌, ◌<◌, ◌≡◌, arith}
use scx_imperator.Reclassify.{classify, hard_demote, tier_gate_demote}

pub classify-lt : (tier avg : ℕ) → classify tier avg < 4
unfolding classify
classify-lt tier avg = ground arith

-- No oscillation: at an unchanged average, the tier that was earned is kept.
pub classify-classify :
    (tier avg : ℕ) → tier < 4 → classify (classify tier avg) avg ≡ classify tier avg
unfolding classify
classify-classify tier avg h = ground arith

-- A task falls behind its tier exactly when its average reaches the tier's gate, and gets ahead of
-- it exactly when its average is below 90% of the gate above.
pub classify_moves :
    (tier avg : ℕ)
    → tier < 3
    → (tier < classify tier avg → tier_gate_demote tier ≤ avg)
      × (tier_gate_demote tier ≤ avg → tier < classify tier avg)
      × (classify (suc tier) avg < suc tier → 10 * avg < 9 * tier_gate_demote tier)
      × (10 * avg < 9 * tier_gate_demote tier → classify (suc tier) avg < suc tier)
unfolding classify
classify_moves tier avg h =
    (λ k. ground arith, λ k. ground arith, λ k. ground arith, λ k. ground arith)

-- The hard-demote cap never changes a classification: whatever it would demote is in T3 already.
pub hard_demote-classify :
    (tier avg stable : ℕ) → hard_demote avg stable (classify tier avg) ≡ classify tier avg
unfolding hard_demote classify
hard_demote-classify tier avg stable = ground arith

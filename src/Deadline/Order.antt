-- ===== src/Deadline/Order.antt =====
-- What the deadline order promises between tiers, and to a task that waits.
use scx_imperator.Common.{ℕ, suc, ◌+◌, ◌-◌, ◌*◌, ◌^◌, ◌≤◌, ◌<◌, ◌≡◌, arith}
use scx_imperator.Intf.{cake_tier_idx}
use scx_imperator.Intf.Fused.{cake_tier_idx-arith, unpack-pack_config}
use scx_imperator.State.{Rodata, default_rodata}
use scx_imperator.Deadline.{budget, capped_advance, tier_deadline}

cake_tier_idx_lt : (t : ℕ) → t < 4 → cake_tier_idx t ≡ t
cake_tier_idx_lt t h = omega (arith, cake_tier_idx-arith t)

pred_lem : (t : ℕ) → suc t - 1 ≡ t
pred_lem t = omega arith

-- Two tasks that are queued at the same time keep the order of their tiers, whatever advance the
-- lower tier's task gets, if the budgets grow from the one tier to the next.
pub tier_deadline_strict :
    (c : Rodata) (now t advance : ℕ)
    → t < 3
    → budget c t < budget c (suc t)
    → now + budget c (suc t) < 2 ^ 64
    → tier_deadline c now t 0 < tier_deadline c now (suc t) advance
unfolding tier_deadline
tier_deadline_strict c now t advance ht grows fits =
    ground
      (arith, cake_tier_idx_lt t (omega arith), cake_tier_idx_lt (suc t) (omega arith), pred_lem t)

pub tier_deadline_upper :
    (c : Rodata) (now t advance : ℕ) → t < 4 → tier_deadline c now t advance ≤ now + budget c t
unfolding tier_deadline
tier_deadline_upper c now t advance h = ground (arith, cake_tier_idx_lt t h)

-- The capped advance never reaches back before the time of queueing.
pub tier_deadline_lower :
    (c : Rodata) (now t advance : ℕ)
    → t < 3
    → now + budget c (suc t) < 2 ^ 64
    → now ≤ tier_deadline c now (suc t) advance
unfolding tier_deadline
tier_deadline_lower c now t advance h fits =
    ground
      (arith, cake_tier_idx_lt (suc t) (omega arith), cake_tier_idx_lt t (omega arith), pred_lem t)

-- Aging: once a task has waited for its tier's budget, no task of tier T1 to T3 that is queued
-- later gets ahead of it, whatever the advances of the two.
pub tier_deadline_aging :
    (c : Rodata) (now later t u adv_t adv_u : ℕ)
    → t < 4
    → u < 3
    → now + budget c t ≤ later
    → later + budget c (suc u) < 2 ^ 64
    → tier_deadline c now t adv_t ≤ tier_deadline c later (suc u) adv_u
tier_deadline_aging c now later t u adv_t adv_u ht hu waited fits =
    omega (arith, tier_deadline_upper c now t adv_t ht, tier_deadline_lower c later u adv_u hu fits)

-- The same against a task of T0, whose advance is not capped: the wait that protects a task grows
-- by that advance.
pub tier_deadline_aging_critical :
    (c : Rodata) (now later t adv_t adv_u : ℕ)
    → t < 4
    → now + budget c t + adv_u ≤ later + budget c 0
    → later + budget c 0 < 2 ^ 64
    → tier_deadline c now t adv_t ≤ tier_deadline c later 0 adv_u
tier_deadline_aging_critical c now later t adv_t adv_u ht waited fits =
    omega (arith, tier_deadline_upper c now t adv_t ht, critical)
  where
    critical : later + budget c 0 ≤ tier_deadline c later 0 adv_u + adv_u
    critical = unfold tier_deadline in ground (arith, cake_tier_idx_lt 0 (omega arith))

-- The compiled-in budgets grow from tier to tier: about 3 ms, 8 ms, 40 ms and 50 ms.
pub default_budgets :
    (budget default_rodata 0 ≡ 2929 * 1024)
    × (budget default_rodata 1 ≡ 7812 * 1024)
    × (budget default_rodata 2 ≡ 39062 * 1024)
    × (budget default_rodata 3 ≡ 48828 * 1024)
unfolding budget
default_budgets = (
  (unpack-pack_config 1953 512 2929 (omega arith) (omega arith) (omega arith)).2,
  (unpack-pack_config 1953 1024 7812 (omega arith) (omega arith) (omega arith)).2,
  (unpack-pack_config 1953 2048 39062 (omega arith) (omega arith) (omega arith)).2,
  (unpack-pack_config 1953 4095 48828 (omega arith) (omega arith) (omega arith)).2,
)

-- Of two tasks that are queued at the same time the one of the higher tier comes first, whatever
-- their advances, if the budgets grow from each tier to the next.
pub tier_deadline_order :
    (c : Rodata) (now t u adv_t adv_u : ℕ)
    → t ≤ u
    → u < 3
    → budget c t ≤ budget c u
    → budget c u < budget c (suc u)
    → now + budget c (suc u) < 2 ^ 64
    → tier_deadline c now t adv_t < tier_deadline c now (suc u) adv_u
tier_deadline_order c now t u adv_t adv_u le hu up grows fits =
    omega (arith, tier_deadline_upper c now t adv_t (omega arith), above)
  where
    above : now + budget c u < tier_deadline c now (suc u) adv_u
    above =
        unfold tier_deadline in
        ground (
          arith,
          cake_tier_idx_lt (suc u) (omega arith),
          cake_tier_idx_lt u (omega arith),
          pred_lem u,
        )

-- A deadline of any tier lies between the time of queueing less the advance, and the same plus the
-- longest budget.
pub tier_deadline_window :
    (c : Rodata) (now tier advance b : ℕ)
    → ((t : ℕ) → t < 8 → budget c t ≤ b)
    → now + b < 2 ^ 64
    → (tier_deadline c now tier advance ≤ now + b)
      × (now ≤ tier_deadline c now tier advance + advance)
unfolding tier_deadline capped_advance
tier_deadline_window c now tier advance b longest fits =
    let t = cake_tier_idx tier in
    let small : t < 8 = omega (arith, cake_tier_idx-arith tier) in
    let l = longest t small in (ground arith, ground arith)

-- No compiled-in budget is longer than that of T3, also not in the padding of the table.
pub default_longest : (t : ℕ) → budget default_rodata t ≤ 48828 * 1024
unfolding budget
default_longest t =
    let b0 = (unpack-pack_config 1953 512 2929 (omega arith) (omega arith) (omega arith)).2 in
    let b1 = (unpack-pack_config 1953 1024 7812 (omega arith) (omega arith) (omega arith)).2 in
    let b2 = (unpack-pack_config 1953 2048 39062 (omega arith) (omega arith) (omega arith)).2 in
    let b3 = (unpack-pack_config 1953 4095 48828 (omega arith) (omega arith) (omega arith)).2 in
    ground (arith, b0, b1, b2, b3)

-- ===== src/Task/Alloc/Laws.antt =====
-- A fresh context: what it holds, and that its seed agrees with the classification.
use scx_imperator.Common.{
  ℕ, ◌+◌, ◌*◌, ◌^◌, ◌<◌, ◌≡◌, ◌≢◌, refl, arith, Bool, true, false, some, bit_and_low,
  bit_or_disjoint,
}
use scx_imperator.Intf.{
  flow_new, lock_holder, irq_wake, get_tier, get_stable, has_flag, extract_avg_rt,
  cake_futex_op_unset,
}
use scx_imperator.Intf.Packed.{get_tier-arith, get_stable-arith, has_flag-arith}
use scx_imperator.Intf.Fused.{pack_deficit_avg-lt, extract_avg_rt-pack}
use scx_imperator.State.{TaskCtx, Rodata, World}
use scx_imperator.Task.{IsWf}
use scx_imperator.Reclassify.{classify}
use scx_imperator.Task.Alloc.{
  seed_tier, seed_avg_rt, init_deficit, init_packed, alloc_task_ctx_cold, store_new, slow_path,
  get_task_ctx, imperator_enable,
}

pub seed_tier-lt : (prio : ℕ) → seed_tier prio < 4
unfolding seed_tier
seed_tier-lt prio = ground arith

pub seed_avg_rt-lt : (tier : ℕ) → seed_avg_rt tier < 2 ^ 16
unfolding seed_avg_rt
seed_avg_rt-lt tier = ground arith

-- The seeded average is classified into the seeded tier, so the seed is no tier change by itself.
pub classify-seed : (tier : ℕ) → tier < 4 → classify tier (seed_avg_rt tier) ≡ tier
unfolding seed_avg_rt classify
classify-seed tier h = ground arith

pub init_packed-arith : (tier : ℕ) → tier < 4 → init_packed tier ≡ tier * 2 ^ 28 + 2 ^ 24
unfolding init_packed
init_packed-arith tier h = ground (arith, bit_and_low 2 tier, bit_or_disjoint 4 tier 1)

module _ (c : Rodata) (prio : ℕ) where
  abbrev fresh_packed : ℕ
  fresh_packed = init_packed (seed_tier prio)

  fresh_packed-arith : fresh_packed ≡ seed_tier prio * 2 ^ 28 + 2 ^ 24
  fresh_packed-arith = init_packed-arith (seed_tier prio) (seed_tier-lt prio)

  fresh_packed-lt : fresh_packed < 2 ^ 32
  fresh_packed-lt = omega (arith, fresh_packed-arith, seed_tier-lt prio)

  fresh_fields :
      (get_tier fresh_packed ≡ seed_tier prio)
      × (get_stable fresh_packed ≡ 0)
      × (has_flag flow_new fresh_packed ≡ true)
      × (has_flag lock_holder fresh_packed ≡ false)
      × (has_flag irq_wake fresh_packed ≡ false)
  fresh_fields = ground (
    arith,
    fresh_packed-arith,
    seed_tier-lt prio,
    get_tier-arith fresh_packed fresh_packed-lt,
    get_stable-arith fresh_packed,
    has_flag-arith flow_new fresh_packed,
    has_flag-arith lock_holder fresh_packed,
    has_flag-arith irq_wake fresh_packed,
  )

  -- With storage, a fresh context is well formed. It has the tier that the nice value seeds, an
  -- average which classifies into that tier, the new-flow flag and no other, and no recorded futex.
  pub alloc_task_ctx_cold_lem :
      c.quantum_ns < 2 ^ 64
      → (t : TaskCtx) × (alloc_task_ctx_cold c true prio ≡ some t)
        × IsWf t
        × (get_tier t.packed_info ≡ seed_tier prio)
        × (classify (get_tier t.packed_info) (extract_avg_rt t.deficit_avg_fused) ≡ seed_tier prio)
        × (has_flag flow_new t.packed_info ≡ true)
        × (has_flag lock_holder t.packed_info ≡ false)
        × (has_flag irq_wake t.packed_info ≡ false)
        × (t.pending_futex_op ≡ cake_futex_op_unset)
  unfolding alloc_task_ctx_cold
  alloc_task_ctx_cold_lem fits = (
    _,
    refl,
    omega (
      arith,
      fresh_packed-lt,
      pack_deficit_avg-lt (init_deficit c) (seed_avg_rt (seed_tier prio)) (seed_avg_rt-lt _),
    ),
    fresh_fields.0,
    rw
        (
          fresh_fields.0,
          extract_avg_rt-pack (init_deficit c) (seed_avg_rt (seed_tier prio)) (seed_avg_rt-lt _),
        )
        (classify-seed (seed_tier prio) (seed_tier-lt prio)),
    fresh_fields.2,
    fresh_fields.3,
    fresh_fields.4,
    refl,
  )

-- Enabling a task: an existing context is kept, a missing one is allocated if storage is to be had,
-- and no other task is touched.
pub imperator_enable_lem :
    (c : Rodata) (storage : Bool) (prio p q : ℕ) (w : World)
    → let w' = imperator_enable c storage prio p w in
      (w'.tasks p ≡ slow_path (w.tasks p) true (alloc_task_ctx_cold c storage prio))
      × (p ≢ q → w'.tasks q ≡ w.tasks q)
unfolding imperator_enable get_task_ctx store_new alloc_task_ctx_cold
imperator_enable_lem c storage prio p q w = (ground arith, λ h. ground arith)

-- ===== src/Task/InitTask/Laws.antt =====
-- What exec and fork leave in the context of the task.
use scx_imperator.Common.{ℕ, ◌/◌, ◌^◌, ◌<◌, ◌≡◌, arith}
use scx_imperator.Intf.{
  FlowFlag, get_tier, get_stable, has_flag, extract_avg_rt, extract_deficit, restart_tier, put_tier,
  put_stable_tier, pack_deficit_avg,
}
use scx_imperator.Intf.Packed.{restart_tier-arith}
use scx_imperator.Intf.Laws.{
  get_tier-lt, put_stable_tier-lt, get_tier-put_stable_tier, get_stable-put_stable_tier,
  has_flag-put_stable_tier, put_tier-lt, get_tier-put_tier, get_stable-put_tier, has_flag-put_tier,
}
use scx_imperator.Intf.Fused.{
  pack_deficit_avg-lt, extract_avg_rt-pack, extract_deficit-pack, extract_deficit-lt,
  extract_avg_rt-lt,
}
use scx_imperator.State.{TaskCtx, Rodata, tier_slice}
use scx_imperator.Task.{IsWf}
use scx_imperator.Reclassify.{classify}
use scx_imperator.Reclassify.Preserve.{tier_slice-lt}
use scx_imperator.Task.Alloc.{seed_tier, seed_avg_rt, init_deficit}
use scx_imperator.Task.InitTask.{exec_seed, exec_reset, fork_inherit}

-- The two copies of the seeding logic agree.
pub exec_seed-eq :
    (prio : ℕ)
    → ((exec_seed prio).tier ≡ seed_tier prio)
      × ((exec_seed prio).avg ≡ seed_avg_rt (seed_tier prio))
unfolding exec_seed seed_tier seed_avg_rt
exec_seed-eq prio = ground arith

classify-exec_seed :
    (prio : ℕ) → classify (exec_seed prio).tier (exec_seed prio).avg ≡ (exec_seed prio).tier
unfolding exec_seed classify
classify-exec_seed prio = ground arith

exec_seed-lt : (prio : ℕ) → ((exec_seed prio).tier < 4) × ((exec_seed prio).avg < 2 ^ 16)
unfolding exec_seed
exec_seed-lt prio = ground arith

module _ (c : Rodata) (prio : ℕ) (t : TaskCtx) (wf : IsWf t) where
  abbrev tier : ℕ
  tier = (exec_seed prio).tier

  restarted : restart_tier tier t.packed_info ≡ put_stable_tier 0 tier t.packed_info
  restarted = restart_tier-arith tier t.packed_info (exec_seed-lt prio).0

  pub exec_reset-IsWf : IsWf (exec_reset c prio t)
  unfolding exec_reset
  exec_reset-IsWf = ground (
    arith,
    restarted,
    put_stable_tier-lt 0 tier t.packed_info (omega arith) (exec_seed-lt prio).0,
    pack_deficit_avg-lt (extract_deficit t.deficit_avg_fused) (exec_seed prio).avg
        (exec_seed-lt prio).1,
    tier_slice-lt c tier,
  )

  -- After an exec the task has the seeded tier with the slice of that tier, no stability, and an
  -- average that classifies into the tier; its deficit and all its flags are kept.
  pub exec_reset_lem :
      let t' = exec_reset c prio t in
      (get_tier t'.packed_info ≡ (exec_seed prio).tier)
      × (get_stable t'.packed_info ≡ 0)
      × (t'.next_slice ≡ tier_slice c (get_tier t'.packed_info))
      × (classify (get_tier t'.packed_info) (extract_avg_rt t'.deficit_avg_fused)
          ≡ get_tier t'.packed_info)
      × (extract_deficit t'.deficit_avg_fused ≡ extract_deficit t.deficit_avg_fused)
      × ((f : FlowFlag) → has_flag f t'.packed_info ≡ has_flag f t.packed_info)
  unfolding exec_reset
  exec_reset_lem = (
    tier_is,
    rw restarted (get_stable-put_stable_tier 0 tier t.packed_info (omega arith) fits.0),
    rw tier_is,
    rw (tier_is, avg_is) (classify-exec_seed prio),
    extract_deficit-pack (extract_deficit t.deficit_avg_fused) (exec_seed prio).avg fits.1
        (extract_deficit-lt _),
    λ f. rw restarted (has_flag-put_stable_tier 0 tier t.packed_info (omega arith) fits.0 f),
  )
    where
      fits : (tier < 4) × ((exec_seed prio).avg < 2 ^ 16)
      fits = exec_seed-lt prio

      tier_is : get_tier (restart_tier tier t.packed_info) ≡ tier
      tier_is = rw restarted (get_tier-put_stable_tier 0 tier t.packed_info (omega arith) fits.0)

      avg_is :
          extract_avg_rt
            (pack_deficit_avg (extract_deficit t.deficit_avg_fused) (exec_seed prio).avg)
          ≡ (exec_seed prio).avg
      avg_is = extract_avg_rt-pack (extract_deficit t.deficit_avg_fused) (exec_seed prio).avg fits.1

module _ (c : Rodata) (parent child : TaskCtx) (pwf : IsWf parent) (cwf : IsWf child) where
  abbrev ptier : ℕ
  ptier = get_tier parent.packed_info

  ptier-lt : ptier < 4
  ptier-lt = get_tier-lt parent.packed_info pwf.packed_fits

  child_avg-lt : extract_avg_rt parent.deficit_avg_fused / 2 < 2 ^ 16
  child_avg-lt = omega (arith, extract_avg_rt-lt parent.deficit_avg_fused)

  pub fork_inherit-IsWf : IsWf (fork_inherit c parent child)
  unfolding fork_inherit
  fork_inherit-IsWf = ground (
    arith,
    put_tier-lt ptier child.packed_info ptier-lt cwf.packed_fits,
    pack_deficit_avg-lt (init_deficit c) (extract_avg_rt parent.deficit_avg_fused / 2) child_avg-lt,
    tier_slice-lt c ptier,
  )

  -- A forked child takes its parent's tier with the slice of that tier, and half of its parent's
  -- average; the child's own flags and stability stay.
  pub fork_inherit_lem :
      let t' = fork_inherit c parent child in
      (get_tier t'.packed_info ≡ get_tier parent.packed_info)
      × (t'.next_slice ≡ tier_slice c (get_tier t'.packed_info))
      × (extract_avg_rt t'.deficit_avg_fused ≡ extract_avg_rt parent.deficit_avg_fused / 2)
      × (get_stable t'.packed_info ≡ get_stable child.packed_info)
      × ((f : FlowFlag) → has_flag f t'.packed_info ≡ has_flag f child.packed_info)
  unfolding fork_inherit
  fork_inherit_lem = (
    tier_is,
    rw tier_is,
    extract_avg_rt-pack (init_deficit c) (extract_avg_rt parent.deficit_avg_fused / 2) child_avg-lt,
    get_stable-put_tier ptier child.packed_info ptier-lt cwf.packed_fits,
    λ f. has_flag-put_tier ptier child.packed_info ptier-lt cwf.packed_fits f,
  )
    where
      tier_is : get_tier (put_tier ptier child.packed_info) ≡ ptier
      tier_is = get_tier-put_tier ptier child.packed_info ptier-lt cwf.packed_fits

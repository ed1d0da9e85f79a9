-- ===== src/Switch/Jitter.antt =====
-- The jitter average of a dispatch, and the stamp that it consumes.
use scx_imperator.Common.{ℕ, ◌/◌, ◌^◌, ◌≤◌, ◌<◌, arith, u32, sub_u32}
use scx_imperator.State.{TaskCtx}
use scx_imperator.Task.{IsWf}
use scx_imperator.Switch.{jitter_ewma, stamp_run}

-- The average moves towards a sample below the clamp and never past it, and stays within its width
-- for every sample.
pub jitter_ewma_between :
    (old lat : ℕ)
    → old < 2 ^ 16
    → lat < 2 ^ 22
    → (jitter_ewma old lat < 2 ^ 16)
      × (lat ≤ old → (lat ≤ jitter_ewma old lat) × (jitter_ewma old lat ≤ old))
      × (old ≤ lat → old ≤ jitter_ewma old lat)
      × (old ≤ lat → jitter_ewma old lat ≤ lat)
unfolding jitter_ewma
jitter_ewma_between old lat ho hl =
    (ground arith, λ h. (ground arith, ground arith), λ h. ground arith, λ h. ground arith)

pub stamp_run-IsWf : (now : ℕ) (t : TaskCtx) → IsWf t → IsWf (stamp_run now t)
unfolding stamp_run
stamp_run-IsWf now t wf =
    let lat = sub_u32 (u32 now) t.enqueue_time / 2 ^ 10 in
    let fits = (jitter_ewma_between t.jitter_ewma_us lat wf.jitter_fits (omega arith)).0 in
    ground (arith, fits)

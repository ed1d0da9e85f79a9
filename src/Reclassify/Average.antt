-- ===== src/Reclassify/Average.antt =====
-- The runtime average, the burst and the deficit: bounds, and which way they move.
use scx_imperator.Common.{ℕ, ◌+◌, ◌^◌, ◌≤◌, ◌<◌, ◌≡◌, arith, Bool, true, false}
use scx_imperator.Reclassify.{bout_us, burst_us, ewma, spend_deficit}

pub bout_us-lt : (now last : ℕ) → bout_us now last < 2 ^ 16
unfolding bout_us
bout_us-lt now last = ground arith

pub burst_us-lt : (acc bout : ℕ) → burst_us acc bout < 2 ^ 16
unfolding burst_us
burst_us-lt acc bout = ground arith

-- A burst is never shorter than the bout that ends it, and never forgets what was accumulated.
pub burst_us_lower :
    (acc bout : ℕ)
    → acc < 2 ^ 16
    → bout < 2 ^ 16
    → (acc ≤ burst_us acc bout) × (bout ≤ burst_us acc bout)
unfolding burst_us
burst_us_lower acc bout ha hb = ground arith

pub ewma-lt : (r : Bool) (avg rt : ℕ) → avg < 2 ^ 16 → ewma r avg rt < 2 ^ 16
unfolding ewma
ewma-lt r avg rt h = ground arith

-- The average moves towards the sample and never past it. A preempted task's average never falls.
pub ewma_between :
    (r : Bool) (avg rt : ℕ)
    → avg < 2 ^ 16
    → rt < 2 ^ 16
    → (rt ≤ avg → (rt ≤ ewma r avg rt) × (ewma r avg rt ≤ avg))
      × (avg ≤ rt → (avg ≤ ewma r avg rt) × (ewma r avg rt ≤ rt))
      × (r ≡ true → avg ≤ ewma r avg rt)
unfolding ewma
ewma_between r avg rt ha hr =
    (λ h. (ground arith, ground arith), λ h. (ground arith, ground arith), λ h. ground arith)

-- A finished burst at least 4 shorter than the average brings it down, and one at least 16 longer
-- brings it up.
pub ewma_moves :
    (avg rt : ℕ)
    → avg < 2 ^ 16
    → rt < 2 ^ 16
    → (rt + 4 ≤ avg → ewma false avg rt < avg) × (avg + 16 ≤ rt → avg < ewma false avg rt)
unfolding ewma
ewma_moves avg rt ha hr = (λ h. ground arith, λ h. ground arith)

pub spend_deficit-le : (d b : ℕ) → spend_deficit d b ≤ d
unfolding spend_deficit
spend_deficit-le d b = ground arith

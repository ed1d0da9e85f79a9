-- ===== src/Enqueue/Kick/Victim.antt =====
-- Who is kicked: a CPU of the same LLC that runs a bulk task, or else a frame task.
use scx_imperator.Common.{
  ℕ, ◌^◌, ◌≤◌, ◌<◌, ◌≡◌, ◌∙◌, sym, inl, inr, arith, Bool, true, false, ◌&&◌, List, [], ◌∷◌, ltb,
  leb, test_bit, test_bit-bit_and, test_bit-zero, Bool-cases, bit_and-le,
}
use scx_imperator.Intf.{cake_tier_bulk, cake_tier_frame, cake_tier_interact, llc_idx}
use scx_imperator.Compat.{bit_scan_forward_u64}
use scx_imperator.Compat.Scan.{bit_scan_forward_lem}
use scx_imperator.State.{World, Kernel, Call, kick_cpu}
use scx_imperator.Enqueue.Kick.{tier_in_llc, kick_victim}

-- The CPU belongs to the LLC and runs a task of the tier, by the masks.
unfoldable pub runs_in : World → ℕ → ℕ → ℕ → Bool
runs_in w llc tier cpu =
    test_bit (w.tier_cpu_mask tier) cpu && test_bit (w.llc_cpu_mask (llc_idx llc)) cpu

unfoldable pub AbsentIn : World → ℕ → ℕ → Type 0
AbsentIn w llc tier = (cpu : ℕ) → runs_in w llc tier cpu ≡ false

-- The decision as a relation: who may be kicked, and that nobody is only if there is no victim.
pub data Picks (k : Kernel) (w : World) (llc : ℕ) : List Call → Type 0 where
  bulk :
      (cpu : ℕ)
      → cpu < 64
      → runs_in w llc cake_tier_bulk cpu ≡ true
      → Picks k w llc (kick_cpu cpu k.kick_preempt ∷ [])
  frame :
      (cpu : ℕ)
      → cpu < 64
      → AbsentIn w llc cake_tier_bulk
      → runs_in w llc cake_tier_frame cpu ≡ true
      → Picks k w llc (kick_cpu cpu k.kick_preempt ∷ [])
  nobody : AbsentIn w llc cake_tier_bulk → AbsentIn w llc cake_tier_frame → Picks k w llc []

module _ (w : World) (llc : ℕ) where
  bit_tier : (tier cpu : ℕ) → test_bit (tier_in_llc w llc tier) cpu ≡ runs_in w llc tier cpu
  unfolding tier_in_llc runs_in
  bit_tier tier cpu = test_bit-bit_and (w.tier_cpu_mask tier) (w.llc_cpu_mask (llc_idx llc)) cpu

  absent : (tier : ℕ) → ltb 0 (tier_in_llc w llc tier) ≡ false → AbsentIn w llc tier
  unfolding AbsentIn
  absent tier h cpu =
      let e : tier_in_llc w llc tier ≡ 0 = ground arith in
      sym (bit_tier tier cpu) ∙ rw e (test_bit-zero cpu)

  found :
      (tier : ℕ)
      → ltb 0 (tier_in_llc w llc tier) ≡ true
      → tier_in_llc w llc tier < 2 ^ 64
      → let cpu = bit_scan_forward_u64 (tier_in_llc w llc tier) in
        (cpu < 64) × (runs_in w llc tier cpu ≡ true)
  found tier h fits =
      let mask = tier_in_llc w llc tier in
      let r = (bit_scan_forward_lem mask (ground arith)).0 fits in
      (r.1, sym (bit_tier tier (bit_scan_forward_u64 mask)) ∙ r.0)

  masks_fit : (tier : ℕ) → w.tier_cpu_mask tier < 2 ^ 64 → tier_in_llc w llc tier < 2 ^ 64
  unfolding tier_in_llc
  masks_fit tier h = omega (arith, bit_and-le (w.tier_cpu_mask tier) (w.llc_cpu_mask (llc_idx llc)))

  -- A task of T0 or T1 that is queued kicks at most one CPU, which belongs to the LLC of its queue
  -- and runs a bulk task, or a frame task when no CPU there runs a bulk task. If nobody is kicked,
  -- no CPU there runs either. A task of a lower tier kicks nobody.
  pub kick_victim_lem :
      (k : Kernel) (tier : ℕ)
      → w.tier_cpu_mask cake_tier_bulk < 2 ^ 64
      → w.tier_cpu_mask cake_tier_frame < 2 ^ 64
      → (tier ≤ cake_tier_interact → Picks k w llc (kick_victim k w llc tier))
        × (cake_tier_interact < tier → kick_victim k w llc tier ≡ [])
  unfolding kick_victim
  kick_victim_lem k tier fits3 fits2 = (pick, λ h. ground arith)
    where
      pick : tier ≤ cake_tier_interact → Picks k w llc (kick_victim k w llc tier)
      pick h =
          let urgent : leb tier cake_tier_interact ≡ true = ground arith in
          elim (Bool-cases (ltb 0 (tier_in_llc w llc cake_tier_bulk))) [
            | inl b ↦
                let r = found cake_tier_bulk b (masks_fit cake_tier_bulk fits3) in
                unfold kick_victim in
                rw urgent
                  (rw b (bulk (bit_scan_forward_u64 (tier_in_llc w llc cake_tier_bulk)) r.0 r.1))
            | inr b ↦ elim (Bool-cases (ltb 0 (tier_in_llc w llc cake_tier_frame))) [
              | inl f ↦
                  let r = found cake_tier_frame f (masks_fit cake_tier_frame fits2) in
                  unfold kick_victim in
                  rw urgent (
                    rw b (
                      rw f (
                        frame (bit_scan_forward_u64 (tier_in_llc w llc cake_tier_frame)) r.0
                          (absent cake_tier_bulk b) r.1)))
              | inr f ↦
                  unfold kick_victim in
                  rw urgent
                    (rw b (rw f (nobody (absent cake_tier_bulk b) (absent cake_tier_frame f))))
            ]
          ]

pub runs_in-test_bit :
    (w : World) (llc tier cpu : ℕ)
    → runs_in w llc tier cpu ≡ true
    → test_bit (w.tier_cpu_mask tier) cpu ≡ true
unfolding runs_in
runs_in-test_bit w llc tier cpu h = ground arith

pub runs_in-llc :
    (w : World) (llc tier cpu : ℕ)
    → runs_in w llc tier cpu ≡ true
    → test_bit (w.llc_cpu_mask (llc_idx llc)) cpu ≡ true
unfolding runs_in
runs_in-llc w llc tier cpu h = ground arith

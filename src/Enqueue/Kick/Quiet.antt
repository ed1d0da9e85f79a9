-- ===== src/Enqueue/Kick/Quiet.antt =====
-- The kick of imperator_enqueue and the queues.
use scx_imperator.Common.{ℕ, ◌≡◌, refl, Bool, true, false, List, [], ◌∷◌, if◌then◌else◌, leb, ltb}
use scx_imperator.State.{World, Kernel, Call, kick_cpu, inserts_into}
use scx_imperator.Intf.{cake_tier_bulk, cake_tier_frame, cake_tier_interact}
use scx_imperator.Compat.{bit_scan_forward_u64}
use scx_imperator.Enqueue.Kick.{tier_in_llc, kick_victim}

module _ (dsq : ℕ) where
  kick_only :
      (b : Bool) (cpu flags : ℕ) (rest : List Call)
      → inserts_into dsq rest ≡ false
      → inserts_into dsq (if b then kick_cpu cpu flags ∷ [] else rest) ≡ false
  unfolding inserts_into
  kick_only true cpu flags rest h = refl
  kick_only false cpu flags rest h = h

  kick_if :
      (b : Bool) (rest : List Call)
      → inserts_into dsq rest ≡ false
      → inserts_into dsq (if b then rest else []) ≡ false
  unfolding inserts_into
  kick_if true rest h = h
  kick_if false rest h = refl

  pub inserts_into-kick_victim :
      (k : Kernel) (w : World) (llc tier : ℕ) → inserts_into dsq (kick_victim k w llc tier) ≡ false
  unfolding kick_victim inserts_into
  inserts_into-kick_victim k w llc tier =
      let t3 = tier_in_llc w llc cake_tier_bulk in
      let t2 = tier_in_llc w llc cake_tier_frame in
      kick_if (leb tier cake_tier_interact) _ (
        kick_only (ltb 0 t3) (bit_scan_forward_u64 t3) k.kick_preempt _
          (kick_only (ltb 0 t2) (bit_scan_forward_u64 t2) k.kick_preempt [] refl))

-- The calls are one kick, or none.
pub data AtMostKick (k : Kernel) : List Call → Type 0 where
  silent : AtMostKick k []
  one_kick : (cpu : ℕ) → AtMostKick k (kick_cpu cpu k.kick_preempt ∷ [])

either-AtMostKick :
    (k : Kernel) (b : Bool) (xs ys : List Call)
    → AtMostKick k xs
    → AtMostKick k ys
    → AtMostKick k (if b then xs else ys)
either-AtMostKick k true xs ys hx hy = hx
either-AtMostKick k false xs ys hx hy = hy

pub kick_victim-AtMostKick :
    (k : Kernel) (w : World) (llc tier : ℕ) → AtMostKick k (kick_victim k w llc tier)
unfolding kick_victim
kick_victim-AtMostKick k w llc tier =
    either-AtMostKick k (leb tier cake_tier_interact) _ []
      (either-AtMostKick k (ltb 0 (tier_in_llc w llc cake_tier_bulk)) _ _ (one_kick _)
        (either-AtMostKick k (ltb 0 (tier_in_llc w llc cake_tier_frame)) _ [] (one_kick _) silent))
      silent

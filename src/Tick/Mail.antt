-- ===== src/Tick/Mail.antt =====
-- The mailbox: the published tier, and the frequency hint.
use scx_imperator.Common.{
  ℕ, ◌+◌, ◌/◌, ◌%◌, ◌^◌, ◌≤◌, ◌<◌, ◌≡◌, ◌≢◌, arith, true, [], ◌∷◌, ◌++◌, bit_and_low,
  bit_or_disjoint, has, bit_and_pow, ◌==◌,
}
use scx_imperator.Intf.{mbox_get_tier, mbox_valid_flag}
use scx_imperator.Intf.Fused.{mbox_get_tier-arith}
use scx_imperator.State.{Mailbox, cpuperf_set}
use scx_imperator.Tick.{TickState, tier_flags, publish_tier, dsq_hint_encode, steer}

tier_flags-arith : (t : ℕ) → t < 4 → tier_flags t ≡ 128 + t
unfolding tier_flags
tier_flags-arith t h = ground (arith, bit_and_low 2 t, bit_or_disjoint 7 1 t)

has_valid : (f : ℕ) → has f mbox_valid_flag ≡ (f / 2 ^ 7 % 2 == 1)
has_valid f = ground (arith, bit_and_pow 7 f 1, bit_and_low 1 (f / 2 ^ 7))

-- A mailbox that publishes a tier: valid, with the tier in its low bits.
pub record Publishes (m : Mailbox) (tier : ℕ) : Type 0 where
  pub is_valid : has m.flags mbox_valid_flag ≡ true
  pub is_tier : mbox_get_tier m.flags ≡ tier
  pub fits : m.flags < 2 ^ 8

pub publish_tier-Publishes : (t : ℕ) (s : TickState) → t < 4 → Publishes (publish_tier t s).mbox t
unfolding publish_tier
publish_tier-Publishes t s h = record {
  is_valid = ground (arith, tier_flags-arith t h, has_valid (tier_flags t));
  is_tier = omega (arith, tier_flags-arith t h, mbox_get_tier-arith (tier_flags t));
  fits = omega (arith, tier_flags-arith t h);
}

-- No frequency target up to 1024 encodes to the unset hint, and two targets share a hint only if
-- they agree up to a bucket of 8.
pub dsq_hint_encode_lem :
    (a b : ℕ)
    → a ≤ 1024
    → b ≤ 1024
    → (dsq_hint_encode a ≢ 0)
      × (dsq_hint_encode a < 2 ^ 8)
      × (dsq_hint_encode a ≡ dsq_hint_encode b → (a < b + 8) × (b < a + 8))
unfolding dsq_hint_encode
dsq_hint_encode_lem a b ha hb = (omega arith, omega arith, λ h. omega arith)

-- Steering leaves the target's hint, and makes the call exactly when that was not the hint before.
pub steer_lem :
    (cpu target : ℕ) (s : TickState)
    → target ≤ 1024
    → let s' = steer cpu target s in
      (s'.mbox.dsq_hint ≡ dsq_hint_encode target)
      × (s.mbox.dsq_hint ≢ dsq_hint_encode target
          → s'.calls ≡ s.calls ++ cpuperf_set cpu target ∷ [])
      × (s.mbox.dsq_hint ≡ dsq_hint_encode target → s'.calls ≡ s.calls)
unfolding steer
steer_lem cpu target s h =
    let nz = (dsq_hint_encode_lem target target h h).0 in
    (ground arith, λ k. ground arith, λ k. ground arith)

pub steer_keeps :
    (cpu target : ℕ) (s : TickState)
    → ((steer cpu target s).task ≡ s.task)
      × ((steer cpu target s).mbox.flags ≡ s.mbox.flags)
      × ((steer cpu target s).mbox.tick_counter ≡ s.mbox.tick_counter)
      × ((steer cpu target s).stats ≡ s.stats)
unfolding steer
steer_keeps cpu target s = ground arith

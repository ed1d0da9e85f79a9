-- ===== src/Intf/Packed.antt =====
-- The fields of `packed_info`, [stable:2][tier:2][flags:4][reserved:24]: each access as arithmetic.
use scx_imperator.Common.{
  ℕ, ◌+◌, ◌-◌, ◌*◌, ◌/◌, ◌%◌, ◌^◌, ◌<◌, bit_and, bit_or, ◌≡◌, arith, ◌==◌, bit_and_step,
  bit_and_low, bit_and_pow, bit_and_keep, bit_or_pow, bit_or_one, bit_or_disjoint,
  bit_or_disjoint_left,
}
use scx_imperator.Intf.{
  FlowFlag, flow_new, lock_holder, irq_wake, get_tier, get_stable, has_flag, set_flag, clear_flag,
  put_stable_tier, reset_stable, put_tier, restart_tier,
}

pub get_tier-arith : (p : ℕ) → p < 2 ^ 32 → get_tier p ≡ p / 2 ^ 28 % 4
unfolding get_tier
get_tier-arith p h = ground (arith, bit_and_low 2 (p % 2 ^ 32 / 2 ^ 28))

pub get_stable-arith : (p : ℕ) → get_stable p ≡ p / 2 ^ 30 % 4
unfolding get_stable
get_stable-arith p = bit_and_low 2 (p / 2 ^ 30)

has_bit : (k p : ℕ) → bit_and p (1 * 2 ^ k) ≡ p / 2 ^ k % 2 * 2 ^ k
has_bit k p = ground (arith, bit_and_pow k p 1, bit_and_low 1 (p / 2 ^ k))

set_bit : (k p : ℕ) → bit_or p (1 * 2 ^ k) ≡ (p / 2 ^ k / 2 * 2 + 1) * 2 ^ k + p % 2 ^ k
set_bit k p = ground (arith, bit_or_pow k p 1, bit_or_one (p / 2 ^ k))

-- The place of a flag in the word.
abbrev pub flag_index : FlowFlag → ℕ
flag_index flow_new = 24
flag_index lock_holder = 25
flag_index irq_wake = 26

pub has_flag-arith : (f : FlowFlag) (p : ℕ) → has_flag f p ≡ (p / 2 ^ flag_index f % 2 == 1)
unfolding has_flag
has_flag-arith flow_new p = ground (arith, has_bit 24 p)
has_flag-arith lock_holder p = ground (arith, has_bit 25 p)
has_flag-arith irq_wake p = ground (arith, has_bit 26 p)

pub set_flag-arith :
    (f : FlowFlag) (p : ℕ) → set_flag f p ≡ p + (1 - p / 2 ^ flag_index f % 2) * 2 ^ flag_index f
unfolding set_flag
set_flag-arith flow_new p = ground (arith, set_bit 24 p)
set_flag-arith lock_holder p = ground (arith, set_bit 25 p)
set_flag-arith irq_wake p = ground (arith, set_bit 26 p)

-- A word below 2 ^ w with its lowest bit cleared: the mask is 2 ^ w - 2.
and_even : (w q : ℕ) → q < 2 ^ 8 → bit_and q (2 * (2 ^ w - 1)) ≡ q / 2 % 2 ^ w * 2
and_even w q h = ground (arith, bit_and_step q (2 * (2 ^ w - 1)), bit_and_low w (q / 2))

pub clear_flag-arith :
    (f : FlowFlag) (p : ℕ)
    → p < 2 ^ 32
    → clear_flag f p ≡ p - p / 2 ^ flag_index f % 2 * 2 ^ flag_index f
unfolding clear_flag
clear_flag-arith flow_new p h = ground (arith, bit_and_keep 24 p 254, and_even 7 (p / 2 ^ 24))
clear_flag-arith lock_holder p h = ground (arith, bit_and_keep 25 p 126, and_even 6 (p / 2 ^ 25))
clear_flag-arith irq_wake p h = ground (arith, bit_and_keep 26 p 62, and_even 5 (p / 2 ^ 26))

pub put_stable_tier-arith :
    (s t p : ℕ) → s < 4 → t < 4 → put_stable_tier s t p ≡ (s * 4 + t) * 2 ^ 28 + p % 2 ^ 28
unfolding put_stable_tier
put_stable_tier-arith s t p hs ht = ground (
  arith,
  bit_and_low 28 p,
  bit_or_disjoint 2 s t,
  bit_or_disjoint_left 28 (s * 4 + t) (p % 2 ^ 28),
)

pub reset_stable-arith : (p : ℕ) → reset_stable p ≡ p % 2 ^ 30
unfolding reset_stable
reset_stable-arith p = bit_and_low 30 p

pub put_tier-arith :
    (t p : ℕ) → t < 4 → p < 2 ^ 32 → put_tier t p ≡ p / 2 ^ 30 * 2 ^ 30 + t * 2 ^ 28 + p % 2 ^ 28
unfolding put_tier
put_tier-arith t p ht hp = ground (
  arith,
  bit_and_keep 28 p 12,
  bit_and_pow 2 (p / 2 ^ 28) 3,
  bit_and_low 2 (p / 2 ^ 28 / 4),
  bit_or_pow 28 (p / 2 ^ 30 * 2 ^ 30 + p % 2 ^ 28) t,
  bit_or_disjoint 2 (p / 2 ^ 30) t,
)

pub restart_tier-arith : (t p : ℕ) → t < 4 → restart_tier t p ≡ put_stable_tier 0 t p
unfolding restart_tier
restart_tier-arith t p ht = ground (
  arith,
  put_stable_tier-arith 0 t p (omega arith) ht,
  bit_and_low 28 p,
  bit_or_disjoint_left 28 t (p % 2 ^ 28),
)

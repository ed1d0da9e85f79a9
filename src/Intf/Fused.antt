-- ===== src/Intf/Fused.antt =====
-- The deficit and average of a task in one word, the packed tier configuration, and the masks that
-- bound an index.
use scx_imperator.Common.{
  ℕ, ◌+◌, ◌*◌, ◌/◌, ◌%◌, ◌^◌, ◌<◌, ◌≡◌, arith, bit_and_low, bit_or_disjoint_left,
}
use scx_imperator.Intf.{
  cake_tier_idx, cpu_idx, llc_idx, extract_deficit, extract_avg_rt, pack_deficit_avg,
  unpack_multiplier, unpack_quantum_ns, unpack_starvation_ns, pack_config, mbox_get_tier,
}

pub cake_tier_idx-arith : (t : ℕ) → cake_tier_idx t ≡ t % 8
unfolding cake_tier_idx
cake_tier_idx-arith t = bit_and_low 3 t

pub cpu_idx-arith : (c : ℕ) → cpu_idx c ≡ c % 64
unfolding cpu_idx
cpu_idx-arith c = bit_and_low 6 c

pub llc_idx-arith : (l : ℕ) → llc_idx l ≡ l % 8
unfolding llc_idx
llc_idx-arith l = bit_and_low 3 l

pub mbox_get_tier-arith : (f : ℕ) → mbox_get_tier f ≡ f % 4
unfolding mbox_get_tier
mbox_get_tier-arith f = bit_and_low 2 f

pub extract_deficit-arith : (f : ℕ) → extract_deficit f ≡ f % 2 ^ 16
unfolding extract_deficit
extract_deficit-arith f = omega (arith, bit_and_low 16 f)

pub extract_avg_rt-arith : (f : ℕ) → extract_avg_rt f ≡ f / 2 ^ 16 % 2 ^ 16
unfolding extract_avg_rt
extract_avg_rt-arith f = omega arith

pub pack_deficit_avg-arith : (d a : ℕ) → a < 2 ^ 16 → pack_deficit_avg d a ≡ a * 2 ^ 16 + d % 2 ^ 16
unfolding pack_deficit_avg
pack_deficit_avg-arith d a h =
    ground (arith, bit_and_low 16 d, bit_or_disjoint_left 16 a (d % 2 ^ 16))

module _ (d a : ℕ) (ha : a < 2 ^ 16) where
  pub pack_deficit_avg-lt : pack_deficit_avg d a < 2 ^ 32
  pack_deficit_avg-lt = omega (arith, pack_deficit_avg-arith d a ha)

  pub extract_avg_rt-pack : extract_avg_rt (pack_deficit_avg d a) ≡ a
  extract_avg_rt-pack =
      omega (arith, pack_deficit_avg-arith d a ha, extract_avg_rt-arith (pack_deficit_avg d a))

  pub extract_deficit-pack : d < 2 ^ 16 → extract_deficit (pack_deficit_avg d a) ≡ d
  extract_deficit-pack hd =
      omega (arith, pack_deficit_avg-arith d a ha, extract_deficit-arith (pack_deficit_avg d a))

pub extract_deficit-lt : (f : ℕ) → extract_deficit f < 2 ^ 16
extract_deficit-lt f = omega (arith, extract_deficit-arith f)

pub extract_avg_rt-lt : (f : ℕ) → extract_avg_rt f < 2 ^ 16
extract_avg_rt-lt f = omega (arith, extract_avg_rt-arith f)

pub unpack_multiplier-lt : (c : ℕ) → unpack_multiplier c < 2 ^ 12
unfolding unpack_multiplier
unpack_multiplier-lt c = omega (arith, bit_and_low 12 c)

pub pack_config-arith :
    (q m s : ℕ) → pack_config q m s ≡ s % 2 ^ 20 * 2 ^ 28 + q % 2 ^ 16 * 2 ^ 12 + m % 2 ^ 12
unfolding pack_config
pack_config-arith q m s = ground (
  arith,
  bit_and_low 12 m,
  bit_and_low 16 q,
  bit_and_low 20 s,
  bit_or_disjoint_left 12 (q % 2 ^ 16) (m % 2 ^ 12),
  bit_or_disjoint_left 28 (s % 2 ^ 20) (q % 2 ^ 16 * 2 ^ 12 + m % 2 ^ 12),
)

-- The three fields of a tier configuration come back as packed: the multiplier as it is, the
-- quantum and the starvation threshold in multiples of 1024 ns.
pub unpack-pack_config :
    (q m s : ℕ)
    → m < 2 ^ 12
    → q < 2 ^ 16
    → s < 2 ^ 20
    → (unpack_multiplier (pack_config q m s) ≡ m)
      × (unpack_quantum_ns (pack_config q m s) ≡ q * 1024)
      × (unpack_starvation_ns (pack_config q m s) ≡ s * 1024)
unfolding unpack_multiplier unpack_quantum_ns unpack_starvation_ns
unpack-pack_config q m s hm hq hs = ground (
  arith,
  pack_config-arith q m s,
  bit_and_low 12 (pack_config q m s),
  bit_and_low 16 (pack_config q m s / 2 ^ 12),
)

-- ===== src/Intf.antt =====
-- src/bpf/intf.h: tiers, flow flags, the packed words of a task, and the fused tier configuration.
pub mod Packed
pub mod Fused
pub mod Laws
use scx_imperator.Common.{ℕ, ◌+◌, ◌-◌, ◌*◌, ◌/◌, ◌%◌, ◌^◌, bit_and, bit_or, Bool}
use scx_imperator.Common.{u16, u32, u64, not_u32, has, ◌<<<◌, ◌>>>◌}

-- enum imperator_tier
abbrev pub cake_tier_critical : ℕ
cake_tier_critical = 0

abbrev pub cake_tier_interact : ℕ
cake_tier_interact = 1

abbrev pub cake_tier_frame : ℕ
cake_tier_frame = 2

abbrev pub cake_tier_bulk : ℕ
cake_tier_bulk = 3

abbrev pub cake_tier_max : ℕ
cake_tier_max = 4

-- `t & 7`
unfoldable pub cake_tier_idx : ℕ → ℕ
cake_tier_idx t = bit_and t 7

abbrev pub cake_max_cpus : ℕ
cake_max_cpus = 64

abbrev pub cake_max_llcs : ℕ
cake_max_llcs = 8

abbrev pub llc_dsq_base : ℕ
llc_dsq_base = 200

-- `cpu & (CAKE_MAX_CPUS - 1)` and `llc & (CAKE_MAX_LLCS - 1)`
unfoldable pub cpu_idx : ℕ → ℕ
cpu_idx cpu = bit_and cpu (cake_max_cpus - 1)

unfoldable pub llc_idx : ℕ → ℕ
llc_idx llc = bit_and llc (cake_max_llcs - 1)

-- enum imperator_flow_flags
pub data FlowFlag : Type 0 where
  flow_new lock_holder irq_wake : FlowFlag

abbrev pub flag_bit : FlowFlag → ℕ
flag_bit flow_new = 1
flag_bit lock_holder = 2
flag_bit irq_wake = 4

abbrev pub shift_flags : ℕ
shift_flags = 24

abbrev pub shift_tier : ℕ
shift_tier = 28

abbrev pub shift_stable : ℕ
shift_stable = 30

-- EXTRACT_BITS_U32 of bpf_compat.h
unfoldable pub extract_bits_u32 : ℕ → ℕ → ℕ → ℕ
extract_bits_u32 val start len = bit_and (u32 val >>> start) (2 ^ len - 1)

-- GET_TIER_RAW, which is also `(packed >> SHIFT_TIER) & MASK_TIER`
pub get_tier : ℕ → ℕ
unfolding extract_bits_u32
get_tier packed = extract_bits_u32 packed shift_tier 2

-- `(packed >> SHIFT_STABLE) & 3`
pub get_stable : ℕ → ℕ
get_stable packed = bit_and (packed >>> shift_stable) 3

-- `packed & (flag << SHIFT_FLAGS)` as a test, `packed | (flag << SHIFT_FLAGS)` and
-- `packed & ~(flag << SHIFT_FLAGS)`
pub has_flag : FlowFlag → ℕ → Bool
has_flag f packed = has packed (flag_bit f <<< shift_flags)

pub set_flag : FlowFlag → ℕ → ℕ
set_flag f packed = bit_or packed (flag_bit f <<< shift_flags)

pub clear_flag : FlowFlag → ℕ → ℕ
clear_flag f packed = bit_and packed (not_u32 (flag_bit f <<< shift_flags))

-- Bits [31:28] written together as [stable:2][tier:2].
pub put_stable_tier : ℕ → ℕ → ℕ → ℕ
put_stable_tier stable tier packed =
    bit_or (bit_and packed (not_u32 (0xf <<< 28))) (u32 (bit_or (stable <<< 2) tier <<< 28))

-- `packed & ~(3 << SHIFT_STABLE)`
pub reset_stable : ℕ → ℕ
reset_stable packed = bit_and packed (not_u32 (3 <<< shift_stable))

-- `(packed & ~(MASK_TIER << SHIFT_TIER)) | (tier << SHIFT_TIER)`
pub put_tier : ℕ → ℕ → ℕ
put_tier tier packed =
    bit_or (bit_and packed (not_u32 (3 <<< shift_tier))) (u32 (tier <<< shift_tier))

-- `(packed & ~(0xF << 28)) | (tier << SHIFT_TIER)`
pub restart_tier : ℕ → ℕ → ℕ
restart_tier tier packed =
    bit_or (bit_and packed (not_u32 (0xf <<< 28))) (u32 (tier <<< shift_tier))

-- EXTRACT_DEFICIT, EXTRACT_AVG_RT, PACK_DEFICIT_AVG
pub extract_deficit : ℕ → ℕ
extract_deficit fused = u16 (bit_and fused 0xffff)

pub extract_avg_rt : ℕ → ℕ
extract_avg_rt fused = u16 (fused >>> 16)

pub pack_deficit_avg : ℕ → ℕ → ℕ
pack_deficit_avg deficit avg = bit_or (bit_and deficit 0xffff) (u32 (avg <<< 16))

abbrev pub tier_gate_t0 : ℕ
tier_gate_t0 = 100

abbrev pub tier_gate_t1 : ℕ
tier_gate_t1 = 2000

abbrev pub tier_gate_t2 : ℕ
tier_gate_t2 = 8000

-- UNPACK_MULTIPLIER, UNPACK_QUANTUM_NS, UNPACK_STARVATION_NS, PACK_CONFIG
pub unpack_multiplier : ℕ → ℕ
unpack_multiplier cfg = bit_and cfg 0xfff

pub unpack_quantum_ns : ℕ → ℕ
unpack_quantum_ns cfg = bit_and (cfg >>> 12) 0xffff <<< 10

pub unpack_starvation_ns : ℕ → ℕ
unpack_starvation_ns cfg = u64 ((cfg >>> 28) <<< 10)

pub pack_config : ℕ → ℕ → ℕ → ℕ
pack_config q_kns mult starv_kns =
    bit_or (bit_or (bit_and mult 0xfff <<< 0) (bit_and q_kns 0xffff <<< 12))
      (bit_and starv_kns 0xfffff <<< 28)

-- MBOX_TIER_MASK, MBOX_GET_TIER, MBOX_VALID_FLAG
abbrev pub mbox_tier_mask : ℕ
mbox_tier_mask = 3

abbrev pub mbox_valid_flag : ℕ
mbox_valid_flag = 0x80

pub mbox_get_tier : ℕ → ℕ
mbox_get_tier f = bit_and f mbox_tier_mask

abbrev pub cake_futex_op_unset : ℕ
cake_futex_op_unset = 0xff

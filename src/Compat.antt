-- ===== src/Compat.antt =====
-- src/bpf/bpf_compat.h: the bit scans for compilers without a count-trailing-zeros instruction.
-- The relaxed loads and stores of that file are plain reads and writes of the model.
pub mod Scan
use scx_imperator.Common.{
  ℕ, zero, suc, ◌+◌, ◌-◌, ◌*◌, ◌/◌, ◌%◌, ◌^◌, bit_and, u32, u64, List, [], ◌∷◌,
}

pub get_or : List ℕ → ℕ → ℕ → ℕ
get_or [] i d = d
get_or (x ∷ xs) zero d = x
get_or (x ∷ xs) (suc i) d = get_or xs i d

abbrev de_bruijn_bits : List ℕ
de_bruijn_bits =
    0 ∷ 1 ∷ 2 ∷ 53 ∷ 3 ∷ 7 ∷ 54 ∷ 27 ∷ 4 ∷ 38 ∷ 41 ∷ 8 ∷ 34 ∷ 55 ∷ 48 ∷ 28 ∷ 62 ∷ 5 ∷ 39 ∷ 46 ∷ 44
    ∷ 42 ∷ 22 ∷ 9 ∷ 24 ∷ 35 ∷ 59 ∷ 56 ∷ 49 ∷ 18 ∷ 29 ∷ 11 ∷ 63 ∷ 52 ∷ 6 ∷ 26 ∷ 37 ∷ 40 ∷ 33 ∷ 47
    ∷ 61 ∷ 45 ∷ 43 ∷ 21 ∷ 23 ∷ 58 ∷ 17 ∷ 10 ∷ 51 ∷ 25 ∷ 36 ∷ 32 ∷ 60 ∷ 20 ∷ 57 ∷ 16 ∷ 50 ∷ 31 ∷ 19
    ∷ 15 ∷ 30 ∷ 14 ∷ 13 ∷ 12 ∷ []

abbrev de_bruijn32 : List ℕ
de_bruijn32 =
    0 ∷ 1 ∷ 28 ∷ 2 ∷ 29 ∷ 14 ∷ 24 ∷ 3 ∷ 30 ∷ 22 ∷ 20 ∷ 15 ∷ 25 ∷ 17 ∷ 4 ∷ 8 ∷ 31 ∷ 27 ∷ 13 ∷ 23 ∷ 21
    ∷ 19 ∷ 16 ∷ 7 ∷ 26 ∷ 12 ∷ 18 ∷ 6 ∷ 11 ∷ 5 ∷ 10 ∷ 9 ∷ []

-- `mask & -mask`, in a word of `w` bits
pub lowest_bit : ℕ → ℕ → ℕ
lowest_bit w mask = bit_and mask ((2 ^ w - mask) % 2 ^ w)

pub imperator_ctz64 : ℕ → ℕ → ℕ
unfolding get_or lowest_bit
imperator_ctz64 mask mult = get_or de_bruijn_bits (u64 (lowest_bit 64 mask * mult) / 2 ^ 58) 0

pub imperator_ctz32 : ℕ → ℕ
unfolding get_or lowest_bit
imperator_ctz32 mask = get_or de_bruijn32 (u32 (lowest_bit 32 mask * 0x077CB531) / 2 ^ 27) 0

-- BIT_SCAN_FORWARD_U64 and BIT_SCAN_FORWARD_U32
unfoldable pub bit_scan_forward_u64 : ℕ → ℕ
unfolding imperator_ctz64
bit_scan_forward_u64 mask = imperator_ctz64 mask 0x022FDD63CC95386D

unfoldable pub bit_scan_forward_u32 : ℕ → ℕ
unfolding imperator_ctz32
bit_scan_forward_u32 mask = imperator_ctz32 mask

-- ===== src/Init.antt =====
-- imperator_init of src/bpf/imperator.bpf.c: the CPU masks of the LLCs, and the queues.
pub mod Laws
use scx_imperator.Common.{
  ℕ, zero, suc, ◌+◌, ◌^◌, List, [], ◌∷◌, ◌++◌, bit_or, if◌then◌else◌, ltb, u64, update, ℤ, pos,
  is_nonneg,
}
use scx_imperator.Intf.{cake_max_cpus, llc_idx, llc_dsq_base}
use scx_imperator.State.{Rodata, World, Call, create_dsq}

-- `llc_cpu_mask[llc] |= 1ULL << cpu`
pub add_cpu : Rodata → ℕ → (ℕ → ℕ) → ℕ → ℕ
add_cpu c cpu masks =
    let llc = llc_idx (c.cpu_llc_id cpu) in update masks llc (bit_or (masks llc) (2 ^ cpu))

-- The loop over the CPUs: `left` more rounds, from `cpu` on.
pub add_cpus : Rodata → (left cpu : ℕ) → (ℕ → ℕ) → ℕ → ℕ
add_cpus c zero cpu masks = masks
add_cpus c (suc left) cpu masks = add_cpus c left (cpu + 1) (add_cpu c cpu masks)

-- `cpu < nr_cpus && cpu < CAKE_MAX_CPUS`
abbrev pub cpu_rounds : Rodata → ℕ
cpu_rounds c = if ltb c.nr_cpus cake_max_cpus then c.nr_cpus else cake_max_cpus

-- The result of the loop over the LLCs, and the calls that it made.
pub record Created : Type 0 where
  pub ret : ℤ
  pub calls : List Call

-- `create` is what the kernel answers for a queue.
pub create_dsqs : (ℕ → ℤ) → (left i : ℕ) → Created
create_dsqs create zero i = record { ret = pos 0; calls = [] }
create_dsqs create (suc left) i =
    let ret = create (llc_dsq_base + i) in
    let call = create_dsq (llc_dsq_base + i) in
    let rest = create_dsqs create left (i + 1) in
    if is_nonneg ret
    then record { ret = rest.ret; calls = call ∷ rest.calls }
    else record { ret = ret; calls = call ∷ [] }

pub record Started : Type 0 where
  pub world : World
  pub created : Created

unfoldable pub imperator_init : Rodata → (ℕ → ℤ) → World → Started
imperator_init c create w = record {
  world = record w { llc_cpu_mask = add_cpus c (cpu_rounds c) 0 w.llc_cpu_mask };
  created = create_dsqs create c.nr_llcs 0;
}

-- ===== src/Dispatch.antt =====
-- imperator_dispatch of src/bpf/imperator.bpf.c: a CPU without work tries the queue of its own LLC,
-- then those of the others that are marked as non-empty.
pub mod Spec
pub mod Scan
pub mod Refine
pub mod Order
pub mod Tried
pub mod Work
use scx_imperator.Common.{
  ℕ, zero, suc, ◌+◌, ◌-◌, ◌^◌, Bool, true, false, not, ◌&&◌, ◌||◌, List, [], ◌∷◌, ◌++◌, bit_and,
  bit_or, ltb, leb, ◌==◌, if◌then◌else◌, u32, not_u32, update,
}
use scx_imperator.Intf.{cpu_idx, llc_idx, llc_dsq_base}
use scx_imperator.Compat.{bit_scan_forward_u32}
use scx_imperator.State.{Rodata, World, Call, dsq_move_to_local, Outcome}

-- The CPU, and what the kernel answers for a queue: whether a task of it could be moved here
-- (`scx_bpf_dsq_move_to_local`), and how many wait there after a failed move.
pub record DispatchEnv : Type 0 where
  pub cpu : ℕ
  pub moves : ℕ → Bool
  pub nr_queued : ℕ → ℕ

-- Whether a task has been moved, the flags of `llc_nonempty`, and the calls so far.
pub record Search : Type 0 where
  pub moved : Bool
  pub nonempty : ℕ → ℕ
  pub calls : List Call

-- One try: the flag is cleared only if the queue is really empty.
unfoldable pub attempt : DispatchEnv → ℕ → Search → Search
attempt env llc s =
    let dsq = llc_dsq_base + llc in
    record {
      moved = env.moves dsq;
      nonempty =
          if env.moves dsq
          then s.nonempty
          else if env.nr_queued dsq == 0
          then update s.nonempty (llc_idx llc) 0
          else s.nonempty;
      calls = s.calls ++ dsq_move_to_local dsq ∷ [];
    }

-- steal_mask, cheapest_llc, min_cost
pub record Steal : Type 0 where
  pub mask : ℕ
  pub cheapest : ℕ
  pub min_cost : ℕ

-- One round of the loop that builds the steal mask.
pub consider : (marked : ℕ → Bool) (cost : ℕ → ℕ) → ℕ → Steal → Steal
consider marked cost i s =
    let better = ltb 0 (cost i) && ((s.min_cost == 0) || ltb (cost i) s.min_cost) in
    if marked i
    then record {
      mask = bit_or s.mask (u32 (2 ^ i));
      cheapest = if better then i else s.cheapest;
      min_cost = if better then cost i else s.min_cost;
    }
    else s

pub build : (marked : ℕ → Bool) (cost : ℕ → ℕ) → (left i : ℕ) → Steal → Steal
build marked cost zero i s = s
build marked cost (suc left) i s = build marked cost left (i + 1) (consider marked cost i s)

-- The loop over the rest of the mask.
pub drain : DispatchEnv → (fuel mask : ℕ) → Search → Search
drain env zero mask s = s
drain env (suc fuel) mask s =
    let s' = attempt env (bit_scan_forward_u32 mask) s in
    let rest = drain env fuel (bit_and mask (mask - 1)) s' in
    if mask == 0 then s else if s'.moved then s' else rest

pub steal : DispatchEnv → (nr_llcs : ℕ) → Steal → Search → Search
steal env nr_llcs p s =
    let s' = attempt env p.cheapest s in
    if ltb p.cheapest nr_llcs && ltb 0 p.min_cost
    then (if s'.moved
        then s'
        else drain env nr_llcs (bit_and p.mask (not_u32 (u32 (2 ^ p.cheapest)))) s')
    else drain env nr_llcs p.mask s

-- `i != my_llc && llc_nonempty[i].nonempty`
abbrev pub is_marked : ℕ → (ℕ → ℕ) → ℕ → Bool
is_marked my_llc nonempty i = not (i == my_llc) && not (nonempty i == 0)

pub search : Rodata → DispatchEnv → World → Search
search c env w =
    let my_llc = c.cpu_llc_id (cpu_idx env.cpu) in
    let own =
      attempt env my_llc (record { moved = false; nonempty = w.llc_nonempty; calls = [] }) in
    let cost = λ (i : ℕ). w.llc_etd_cost (llc_idx my_llc) (llc_idx i) in
    let start : Steal = record { mask = 0; cheapest = c.nr_llcs; min_cost = 0 } in
    let plan = build (is_marked my_llc own.nonempty) cost c.nr_llcs 0 start in
    if own.moved || leb c.nr_llcs 1 then own else steal env c.nr_llcs plan own

pub imperator_dispatch : Rodata → DispatchEnv → World → Outcome
imperator_dispatch c env w =
    let s = search c env w in
    record { world = record w { llc_nonempty = s.nonempty }; calls = s.calls }

-- ===== src/Task/Alloc.antt =====
-- alloc_task_ctx_cold, get_task_ctx and imperator_enable of src/bpf/imperator.bpf.c.
-- Whether the kernel's allocator returns storage, and `p->static_prio`, are arguments.
pub mod Laws
pub mod Contexts
use scx_imperator.Common.{
  ℕ, ◌+◌, ◌-◌, ◌*◌, ◌/◌, ◌%◌, ◌^◌, Bool, true, Option, none, some, bit_and, bit_or, ltb, ◌==◌,
  if◌then◌else◌, u16, u32, u64, ◌<<<◌,
}
use scx_imperator.Intf.{
  cake_tier_critical, cake_tier_interact, cake_tier_frame, cake_tier_bulk, tier_gate_t0,
  tier_gate_t1, tier_gate_t2, pack_deficit_avg, flow_new, flag_bit, shift_flags,
  cake_futex_op_unset,
}
use scx_imperator.State.{TaskCtx, Rodata, World, set_task}

-- The tier that the nice value seeds.
unfoldable pub seed_tier : ℕ → ℕ
seed_tier prio =
    if ltb prio 120
    then cake_tier_critical
    else if ltb 130 prio
    then cake_tier_bulk
    else cake_tier_interact

-- The midpoint of a tier's range, from which the average starts.
unfoldable pub seed_avg_rt : ℕ → ℕ
seed_avg_rt tier =
    if tier == cake_tier_critical
    then tier_gate_t0 / 2
    else if tier == cake_tier_interact
    then (tier_gate_t0 + tier_gate_t1) / 2
    else if tier == cake_tier_frame
    then (tier_gate_t1 + tier_gate_t2) / 2
    else tier_gate_t2 + 1

-- `(u16)((quantum_ns + new_flow_bonus_ns) >> 10)`
unfoldable pub init_deficit : Rodata → ℕ
init_deficit c = u16 (u64 (c.quantum_ns + c.new_flow_bonus_ns) / 2 ^ 10)

-- The fused [tier:2][flags:4], with the new-flow flag.
unfoldable pub init_packed : ℕ → ℕ
init_packed tier =
    u32 (bit_or (bit_and tier 3 <<< 4) (bit_and (flag_bit flow_new) 0xf) <<< shift_flags)

unfoldable pub alloc_task_ctx_cold : Rodata → Bool → ℕ → Option TaskCtx
alloc_task_ctx_cold c storage prio =
    let init_tier = seed_tier prio in
    if storage
    then some (record {
      next_slice = c.quantum_ns;
      deficit_avg_fused = pack_deficit_avg (init_deficit c) (seed_avg_rt init_tier);
      packed_info = init_packed init_tier;
      last_run_at = 0;
      reclass_counter = 0;
      overrun_count = 0;
      lock_skip_count = 0;
      pending_futex_op = cake_futex_op_unset;
      align_pad = 0;
      enqueue_time = 0;
      jitter_ewma_us = 0;
      burst_credit = 0;
      sleep_entry_time = 0;
      burst_acc_us = 0;
    })
    else none

-- The map after a lookup that may create, and the context that it returns.
unfoldable pub store_new : World → ℕ → Option TaskCtx → World
store_new w p none = w
store_new w p (some t) = set_task w p t

-- A context that exists is returned as it is; the slow path runs only for `create`.
unfoldable pub slow_path : Option TaskCtx → Bool → Option TaskCtx → Option TaskCtx
slow_path (some t) create fresh = some t
slow_path none create fresh = if create then fresh else none

unfoldable pub get_task_ctx : Rodata → World → ℕ → Bool → Bool → ℕ → Option TaskCtx
unfolding slow_path
get_task_ctx c w p create storage prio =
    slow_path (w.tasks p) create (alloc_task_ctx_cold c storage prio)

unfoldable pub imperator_enable : Rodata → Bool → ℕ → ℕ → World → World
imperator_enable c storage prio p w = store_new w p (get_task_ctx c w p true storage prio)

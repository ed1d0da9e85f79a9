-- ===== src/Task/InitTask.antt =====
-- imperator_init_task of src/bpf/imperator.bpf.c: a task that execs starts over from its nice value,
-- and a forked child takes its parent's tier.
pub mod Laws
pub mod Contexts
pub mod Order
use scx_imperator.Common.{
  ℕ, ◌+◌, ◌-◌, ◌*◌, ◌/◌, ◌%◌, ◌^◌, Bool, true, false, Option, none, some, ltb, if◌then◌else◌,
}
use scx_imperator.Intf.{
  cake_tier_critical, cake_tier_interact, cake_tier_bulk, tier_gate_t0, tier_gate_t1, tier_gate_t2,
  get_tier, put_tier, restart_tier, extract_deficit, extract_avg_rt, pack_deficit_avg,
}
use scx_imperator.State.{TaskCtx, Rodata, World, tier_slice, set_task}
use scx_imperator.Task.Alloc.{init_deficit}

-- The seed of the exec path: the tier and its average, chosen by one chain of tests.
pub record Seed : Type 0 where
  pub tier : ℕ
  pub avg : ℕ

unfoldable pub exec_seed : ℕ → Seed
exec_seed prio =
    if ltb prio 120
    then record { tier = cake_tier_critical; avg = tier_gate_t0 / 2 }
    else if ltb 130 prio
    then record { tier = cake_tier_bulk; avg = tier_gate_t2 + 1 }
    else record { tier = cake_tier_interact; avg = (tier_gate_t0 + tier_gate_t1) / 2 }

-- `args->fork == false`, for a task that has a context.
pub exec_reset : Rodata → ℕ → TaskCtx → TaskCtx
exec_reset c prio t =
    let s = exec_seed prio in
    record t {
      packed_info = restart_tier s.tier t.packed_info;
      deficit_avg_fused = pack_deficit_avg (extract_deficit t.deficit_avg_fused) s.avg;
      overrun_count = 0;
      reclass_counter = 0;
      lock_skip_count = 0;
      enqueue_time = 0;
      jitter_ewma_us = 0;
      burst_credit = 0;
      sleep_entry_time = 0;
      next_slice = tier_slice c s.tier;
    }

-- `args->fork == true`, for a parent and a child that both have a context.
pub fork_inherit : Rodata → TaskCtx → TaskCtx → TaskCtx
fork_inherit c parent child =
    let ptier = get_tier parent.packed_info in
    record child {
      deficit_avg_fused =
          pack_deficit_avg (init_deficit c) (extract_avg_rt parent.deficit_avg_fused / 2);
      packed_info = put_tier ptier child.packed_info;
      next_slice = tier_slice c ptier;
      enqueue_time = 0;
      jitter_ewma_us = 0;
      burst_credit = 0;
      sleep_entry_time = 0;
    }

pub exec_task : Rodata → ℕ → ℕ → Option TaskCtx → World → World
exec_task c prio p none w = w
exec_task c prio p (some t) w = set_task w p (exec_reset c prio t)

pub fork_task : Rodata → ℕ → Option TaskCtx → Option TaskCtx → World → World
fork_task c p (some parent) (some child) w = set_task w p (fork_inherit c parent child)
fork_task c p _ _ w = w

-- The context of `p->real_parent`, which may be null.
pub parent_ctx : World → Option ℕ → Option TaskCtx
parent_ctx w none = none
parent_ctx w (some q) = w.tasks q

pub imperator_init_task : Rodata → Bool → ℕ → ℕ → Option ℕ → World → World
imperator_init_task c fork prio p parent w =
    if fork
    then fork_task c p (parent_ctx w parent) (w.tasks p) w
    else exec_task c prio p (w.tasks p) w

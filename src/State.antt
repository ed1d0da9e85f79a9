-- ===== src/State.antt =====
-- The state that the callbacks of src/bpf/imperator.bpf.c share: the per-task context and the
-- statistics of src/bpf/intf.h, the loader's constants (RODATA), the global arrays (BSS), and the
-- calls that a callback makes into the kernel, which are recorded in order.
pub mod Counters
use scx_imperator.Common.{
  ℕ, ◌+◌, ◌*◌, ◌/◌, ◌^◌, ◌≡◌, Bool, false, ◌||◌, ◌==◌, Option, some, List, [], ◌∷◌, update, u64,
  table4,
}
use scx_imperator.Intf.{cake_tier_idx, unpack_multiplier, pack_config}

-- struct imperator_task_ctx. `align_pad` is the three bytes of `__align_pad` as one number.
pub record TaskCtx : Type 0 where
  pub next_slice : ℕ  -- u64
  pub deficit_avg_fused : ℕ  -- u32
  pub packed_info : ℕ  -- u32
  pub last_run_at : ℕ  -- u32
  pub reclass_counter : ℕ  -- u16
  pub overrun_count : ℕ  -- u8
  pub lock_skip_count : ℕ  -- u8
  pub pending_futex_op : ℕ  -- u8
  pub align_pad : ℕ  -- u8[3]
  pub enqueue_time : ℕ  -- u32
  pub jitter_ewma_us : ℕ  -- u16
  pub burst_credit : ℕ  -- u16
  pub sleep_entry_time : ℕ  -- u32
  pub burst_acc_us : ℕ  -- u16

-- struct mega_mailbox_entry
pub record Mailbox : Type 0 where
  pub flags : ℕ
  pub dsq_hint : ℕ
  pub tick_counter : ℕ

-- struct imperator_stats; the two counters per tier are arrays.
pub record Stats : Type 0 where
  pub nr_new_flow_dispatches : ℕ
  pub nr_old_flow_dispatches : ℕ
  pub nr_tier_dispatches : ℕ → ℕ
  pub nr_starvation_preempts_tier : ℕ → ℕ
  pub nr_lock_holder_skips : ℕ
  pub nr_irq_wake_boosts : ℕ
  pub nr_waker_tier_boosts : ℕ
  pub nr_preempt_with_credit : ℕ
  pub nr_burst_credit_consumed : ℕ
  pub nr_jitter_ewma_sum : ℕ
  pub nr_jitter_ewma_count : ℕ

-- The const volatile globals that the loader writes before the program runs.
pub record Rodata : Type 0 where
  pub quantum_ns : ℕ
  pub new_flow_bonus_ns : ℕ
  pub enable_stats : Bool
  pub has_hybrid : Bool
  pub big_cpu_mask : ℕ
  pub sim_mode : Bool
  pub nr_llcs : ℕ
  pub nr_cpus : ℕ
  pub cpu_llc_id : ℕ → ℕ
  pub cpu_core_id : ℕ → ℕ
  pub core_cpu_mask : ℕ → ℕ
  pub tier_configs : ℕ → ℕ

-- The writable globals. `tasks` is the task-storage map, by task.
pub record World : Type 0 where
  pub tasks : ℕ → Option TaskCtx
  pub llc_cpu_mask : ℕ → ℕ
  pub mega_mailbox : ℕ → Mailbox
  pub llc_nonempty : ℕ → ℕ
  pub tier_cpu_mask : ℕ → ℕ
  pub dummy_idle : ℕ → Bool
  pub global_stats : ℕ → Stats
  pub llc_etd_cost : ℕ → ℕ → ℕ

-- The flags and the CPU masks of the LLCs are the same.
pub record SameLlcs (w w' : World) : Type 0 where
  pub same_flags : w'.llc_nonempty ≡ w.llc_nonempty
  pub same_masks : w'.llc_cpu_mask ≡ w.llc_cpu_mask

-- Constants of the kernel's headers, which are not part of the repository.
pub record Kernel : Type 0 where
  pub enq_wakeup : ℕ  -- SCX_ENQ_WAKEUP
  pub enq_preempt : ℕ  -- SCX_ENQ_PREEMPT
  pub wake_sync : ℕ  -- SCX_WAKE_SYNC
  pub pf_kthread : ℕ  -- PF_KTHREAD
  pub kick_preempt : ℕ  -- SCX_KICK_PREEMPT
  pub cpuperf_one : ℕ  -- SCX_CPUPERF_ONE
  pub dsq_local : ℕ  -- SCX_DSQ_LOCAL
  pub dsq_local_on : ℕ  -- SCX_DSQ_LOCAL_ON

-- The calls into the kernel that have an effect there, with their arguments.
pub data Call : Type 0 where
  dsq_insert : (task dsq slice flags : ℕ) → Call
  dsq_insert_vtime : (task dsq slice vtime flags : ℕ) → Call
  dsq_move_to_local : (dsq : ℕ) → Call
  kick_cpu : (cpu flags : ℕ) → Call
  cpuperf_set : (cpu target : ℕ) → Call
  create_dsq : (dsq : ℕ) → Call

-- Does one of the calls put a task into the queue?
unfoldable pub inserts_into : ℕ → List Call → Bool
inserts_into q [] = false
inserts_into q (dsq_insert task dsq slice flags ∷ calls) = (dsq == q) || inserts_into q calls
inserts_into q (dsq_insert_vtime task dsq slice vtime flags ∷ calls) =
    (dsq == q) || inserts_into q calls
inserts_into q (call ∷ calls) = inserts_into q calls

-- The world after a callback, and the calls that it made.
pub record Outcome : Type 0 where
  pub world : World
  pub calls : List Call

-- `(quantum_ns * UNPACK_MULTIPLIER(tier_configs[CAKE_TIER_IDX(tier)])) >> 10`
unfoldable pub tier_slice : Rodata → ℕ → ℕ
tier_slice c tier =
    u64 (c.quantum_ns * unpack_multiplier (c.tier_configs (cake_tier_idx tier))) / 2 ^ 10

abbrev pub bump : ℕ → ℕ
bump n = u64 (n + 1)

abbrev pub set_task : World → ℕ → TaskCtx → World
set_task w p t = record w { tasks = update w.tasks p (some t) }

-- The compiled-in values: CAKE_DEFAULT_*, and `tier_configs` with its padding.
abbrev pub default_tier_configs : ℕ → ℕ
default_tier_configs =
    table4 (pack_config 1953 512 2929) (pack_config 1953 1024 7812) (pack_config 1953 2048 39062)
      (pack_config 1953 4095 48828)

abbrev pub default_rodata : Rodata
default_rodata = record {
  quantum_ns = 2000000;
  new_flow_bonus_ns = 8000000;
  enable_stats = false;
  has_hybrid = false;
  big_cpu_mask = 0;
  sim_mode = false;
  nr_llcs = 1;
  nr_cpus = 8;
  cpu_llc_id = λ _. 0;
  cpu_core_id = λ _. 0;
  core_cpu_mask = λ _. 0;
  tier_configs = default_tier_configs;
}

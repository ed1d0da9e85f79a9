-- ===== src/SelectCpu.antt =====
-- imperator_select_cpu of src/bpf/imperator.bpf.c: a woken task goes straight to an idle CPU, or
-- back to its own for imperator_enqueue to queue it.
pub mod Hint
pub mod Laws
pub mod Counters
use scx_imperator.Common.{
  ℕ, ◌*◌, ◌/◌, ◌^◌, Bool, true, false, not, ◌&&◌, ◌||◌, Option, none, some, List, [], ◌∷◌, bit_and,
  bit_or, ltb, ◌==◌, if◌then◌else◌, u32, has, update,
}
use scx_imperator.Intf.{
  cpu_idx, cake_tier_critical, cake_tier_interact, cake_tier_idx, cake_tier_max, get_tier, has_flag,
  set_flag, clear_flag, irq_wake,
}
use scx_imperator.State.{
  TaskCtx, Stats, Rodata, World, Kernel, Call, dsq_insert, Outcome, tier_slice, bump, set_task,
}
use scx_imperator.SelectCpu.Hint.{pcpu_hint}

-- The task that wakes the other, as far as it is looked at: `flags`, and the bytes of `comm`.
pub record Waker : Type 0 where
  pub flags : ℕ
  pub comm : List ℕ

-- What `scx_bpf_select_cpu_dfl` returns, and stores through its last argument.
pub record Answer : Type 0 where
  pub cpu : ℕ
  pub idle : Bool

-- What the kernel tells. A context test that the kernel lacks answers false. `dfl_first` and
-- `dfl_again` are the two calls of `scx_bpf_select_cpu_dfl`, by the previous CPU that is passed.
pub record SelEnv : Type 0 where
  pub cpu : ℕ
  pub prev_cpu : ℕ
  pub wake_flags : ℕ
  pub in_hardirq : Bool
  pub in_nmi : Bool
  pub in_softirq : Bool
  pub waker : Option Waker
  pub allowed : ℕ → Bool
  pub dfl_first : ℕ → Answer
  pub dfl_again : ℕ → Answer

pub starts_with : List ℕ → List ℕ → Bool
starts_with [] comm = true
starts_with (x ∷ xs) [] = false
starts_with (x ∷ xs) (y ∷ ys) = (x == y) && starts_with xs ys

-- "ksoftirqd/"
abbrev pub ksoftirqd : List ℕ
ksoftirqd = 107 ∷ 115 ∷ 111 ∷ 102 ∷ 116 ∷ 105 ∷ 114 ∷ 113 ∷ 100 ∷ 47 ∷ []

pub is_ksoftirqd : Kernel → Option Waker → Bool
is_ksoftirqd k none = false
is_ksoftirqd k (some waker) = has waker.flags k.pf_kthread && starts_with ksoftirqd waker.comm

unfoldable pub irq_context : Kernel → SelEnv → Bool
irq_context k env =
    env.in_hardirq
    || env.in_nmi
    || env.in_softirq
    || not (has env.wake_flags k.wake_sync) && is_ksoftirqd k env.waker

-- The stamp of CAKE_FLOW_IRQ_WAKE, on a task that has a context.
pub stamp_by : World → ℕ → Option TaskCtx → World
stamp_by w p none = w
stamp_by w p (some t) = set_task w p (record t { packed_info = set_flag irq_wake t.packed_info })

pub stamp : Kernel → SelEnv → World → ℕ → World
stamp k env w p = if irq_context k env then stamp_by w p (w.tasks p) else w

-- What consume_irq_wake_get_tier_slice leaves, stores and returns.
pub record Taken : Type 0 where
  pub task : Option TaskCtx
  pub stats : Stats
  pub slice_out : ℕ
  pub tier : ℕ

pub consume_irq_wake_get_tier_slice : Rodata → Option TaskCtx → Stats → Taken
consume_irq_wake_get_tier_slice c none s = record {
  task = none;
  stats = s;
  slice_out = c.quantum_ns;
  tier = cake_tier_interact;
}
consume_irq_wake_get_tier_slice c (some t) s =
    if has_flag irq_wake t.packed_info
    then record {
      task = some (record t { packed_info = clear_flag irq_wake t.packed_info });
      stats =
          if c.enable_stats then record s { nr_irq_wake_boosts = bump s.nr_irq_wake_boosts } else s;
      slice_out = tier_slice c cake_tier_critical;
      tier = cake_tier_critical;
    }
    else record {
      task = some t;
      stats = s;
      slice_out = t.next_slice;
      tier = cake_tier_idx (get_tier t.packed_info);
    }

-- The second call, with the hint.
pub claim : SelEnv → ℕ → Option ℕ → ℕ
claim env cpu none = cpu
claim env cpu (some pcpu) = let again = env.dfl_again pcpu in if again.idle then again.cpu else cpu

-- An idle CPU that is no P-core is given up for one that is.
pub steer_to_pcore : Rodata → SelEnv → ℕ → ℕ
steer_to_pcore c env cpu =
    if c.has_hybrid
      && not (c.big_cpu_mask == 0)
      && (bit_and c.big_cpu_mask (2 ^ bit_and (u32 cpu) 63) == 0)
    then claim env cpu (pcpu_hint c env.allowed)
    else cpu

pub count_idle : Rodata → ℕ → Stats → Stats
count_idle c tier s =
    let flow = record s { nr_new_flow_dispatches = bump s.nr_new_flow_dispatches } in
    if c.enable_stats
    then (if ltb tier cake_tier_max
        then record flow {
          nr_tier_dispatches = update s.nr_tier_dispatches tier (bump (s.nr_tier_dispatches tier));
        }
        else flow)
    else s

-- The CPU that is returned, the world after it and the calls.
pub record Selected : Type 0 where
  pub ret : ℕ
  pub outcome : Outcome

-- The path of an idle CPU; `w` has the stamp.
pub direct : Kernel → Rodata → SelEnv → World → ℕ → ℕ → Selected
direct k c env w p cpu =
    let here = cpu_idx env.cpu in
    let taken = consume_irq_wake_get_tier_slice c (w.tasks p) (w.global_stats here) in
    let cpu' = steer_to_pcore c env cpu in
    record {
      ret = cpu';
      outcome = record {
        world = record w {
          tasks = update w.tasks p taken.task;
          global_stats = update w.global_stats here (count_idle c taken.tier taken.stats);
        };
        calls = dsq_insert p (bit_or k.dsq_local_on cpu') taken.slice_out 0 ∷ [];
      };
    }

pub imperator_select_cpu : Kernel → Rodata → SelEnv → World → ℕ → Selected
imperator_select_cpu k c env w p =
    let answer = env.dfl_first env.prev_cpu in
    let stamped = stamp k env w p in
    let w' = record stamped {
      dummy_idle = update stamped.dummy_idle (cpu_idx env.cpu) answer.idle;
    } in
    if answer.idle
    then direct k c env w' p answer.cpu
    else record { ret = env.prev_cpu; outcome = record { world = w'; calls = [] } }

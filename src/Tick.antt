-- ===== src/Tick.antt =====
-- imperator_tick of src/bpf/imperator.bpf.c: the slice check, the starvation check with its backoff,
-- and the mailbox and frequency update, with the jumps between them as labels.
pub mod Mail
pub mod Starvation
pub mod Saturation
pub mod Handler
pub mod Unreached
pub mod Contexts
pub mod Onward
pub mod Counters
use scx_imperator.Common.{
  ℕ, ◌+◌, ◌-◌, ◌*◌, ◌/◌, ◌%◌, ◌^◌, Bool, true, false, not, ◌&&◌, ◌||◌, Option, none, some, List, [],
  ◌∷◌, ◌++◌, bit_and, bit_or, ltb, leb, ◌==◌, if◌then◌else◌, u8, u32, sub_u32, has, update, table4,
}
use scx_imperator.Intf.{
  cake_tier_idx, cake_tier_max, cpu_idx, llc_idx, llc_dsq_base, get_tier, has_flag, lock_holder,
  mbox_tier_mask, mbox_valid_flag, unpack_starvation_ns,
}
use scx_imperator.State.{
  TaskCtx, Mailbox, Stats, Rodata, World, Kernel, Call, kick_cpu, cpuperf_set, bump, Outcome,
}

-- What the kernel answers during one tick: `scx_bpf_dsq_nr_queued` of a queue, `nr_running` of the
-- run queue unless it is null, and `scx_bpf_cpuperf_cap`.
pub record Env : Type 0 where
  pub cpu : ℕ
  pub now : ℕ
  pub nr_queued : ℕ → ℕ
  pub nr_running : Option ℕ
  pub cpuperf_cap : ℕ

-- The task, this CPU's mailbox and statistics, and the calls so far.
pub record TickState : Type 0 where
  pub task : TaskCtx
  pub mbox : Mailbox
  pub stats : Stats
  pub calls : List Call

-- Where the code goes on: it has returned, or stands at one of the two labels.
pub data Label : Type 0 where
  returned mailbox_dvfs_max mailbox_dvfs : Label

pub record Flow : Type 0 where
  pub state : TickState
  pub label : Label

-- tier_perf_target
abbrev pub tier_perf_target : ℕ → ℕ
tier_perf_target = table4 1024 1024 1024 1024

-- `(u8)(MBOX_VALID_FLAG | (tier & MBOX_TIER_MASK))`
pub tier_flags : ℕ → ℕ
tier_flags tier = u8 (bit_or mbox_valid_flag (bit_and tier mbox_tier_mask))

pub publish_tier : ℕ → TickState → TickState
publish_tier tier s = record s { mbox = record (s.mbox) { flags = tier_flags tier } }

-- DSQ_HINT_ENCODE
pub dsq_hint_encode : ℕ → ℕ
dsq_hint_encode target = u8 (target / 2 ^ 3 + 1)

-- The hysteresis: the call is made only if the hint is unset or another one.
pub steer : ℕ → ℕ → TickState → TickState
steer cpu target s =
    let cached = s.mbox.dsq_hint in
    let encoded = dsq_hint_encode target in
    if (cached == 0) || not (cached == encoded)
    then record s {
      calls = s.calls ++ cpuperf_set cpu target ∷ [];
      mbox = record (s.mbox) { dsq_hint = encoded };
    }
    else s

-- mailbox_dvfs_max
pub dvfs_max : Kernel → ℕ → ℕ → TickState → TickState
dvfs_max k cpu tier s = steer cpu k.cpuperf_one (publish_tier tier s)

-- mailbox_dvfs
pub dvfs : Rodata → Env → ℕ → ℕ → TickState → TickState
dvfs c env cpu tier s =
    let target = tier_perf_target (cake_tier_idx tier) in
    let scaled = (if c.has_hybrid then u32 (target * env.cpuperf_cap) / 2 ^ 10 else target) in
    steer cpu scaled (publish_tier tier s)

-- `tc < 8 ? 0 : tc < 16 ? 1 : tc < 32 ? 3 : 7`
abbrev pub skip_mask : ℕ → ℕ
skip_mask tc = if ltb tc 8 then 0 else if ltb tc 16 then 1 else if ltb tc 32 then 3 else 7

pub check_due : ℕ → Bool
check_due tc = not (has tc (skip_mask tc))

pub grow : TickState → TickState
grow s =
    if ltb s.mbox.tick_counter 255
    then record s { mbox = record (s.mbox) { tick_counter = s.mbox.tick_counter + 1 } }
    else s

-- `tc - (tc >> 2)`
pub decay : TickState → TickState
decay s = record s {
  mbox = record (s.mbox) { tick_counter = u8 (s.mbox.tick_counter - s.mbox.tick_counter / 2 ^ 2) };
}

unfoldable pub contended : Env → Bool
contended env = elim env.nr_running [ none ↦ false | some n ↦ ltb 1 n ]

-- The skip of a lock holder.
pub skip_holder : Rodata → TickState → TickState
skip_holder c s = record s {
  task = record (s.task) { lock_skip_count = u8 (s.task.lock_skip_count + 1) };
  stats =
      if c.enable_stats
      then record (s.stats) { nr_lock_holder_skips = bump s.stats.nr_lock_holder_skips }
      else s.stats;
}

-- The starvation preemption. A lock holder that comes here has used up its skips.
pub preempt_starved : Kernel → Rodata → ℕ → ℕ → TickState → TickState
preempt_starved k c cpu tier s =
    let t =
      (if has_flag lock_holder s.task.packed_info
        then record (s.task) { lock_skip_count = 0 }
        else s.task) in
    publish_tier tier (record s {
      task = t;
      calls = s.calls ++ kick_cpu cpu k.kick_preempt ∷ [];
      stats =
          if c.enable_stats && ltb tier cake_tier_max
          then record (s.stats) {
            nr_starvation_preempts_tier =
                update s.stats.nr_starvation_preempts_tier tier
                  (bump (s.stats.nr_starvation_preempts_tier tier));
          }
          else s.stats;
    })

pub starved : Kernel → Rodata → ℕ → ℕ → TickState → Flow
starved k c cpu tier s =
    if has_flag lock_holder s.task.packed_info && ltb s.task.lock_skip_count 4
    then record { state = skip_holder c s; label = mailbox_dvfs }
    else record { state = preempt_starved k c cpu tier s; label = returned }

-- PHASE 2. The code that does not jump and does not return runs into the label that follows.
pub phase2 : Kernel → Rodata → Env → ℕ → ℕ → ℕ → TickState → Flow
phase2 k c env cpu tier runtime s =
    if check_due s.mbox.tick_counter
    then (if contended env
        then (if ltb (unpack_starvation_ns (c.tier_configs (cake_tier_idx tier))) runtime
            then starved k c cpu tier (decay s)
            else record { state = decay s; label = mailbox_dvfs_max })
        else record { state = grow s; label = mailbox_dvfs_max })
    else record { state = grow s; label = mailbox_dvfs_max }

-- The slice is used up and another task waits for this CPU.
pub expired : Kernel → Rodata → Env → ℕ → ℕ → TickState → Bool
expired k c env cpu runtime s =
    ltb s.task.next_slice runtime
    && (ltb 0 (env.nr_queued (llc_dsq_base + llc_idx (c.cpu_llc_id cpu)))
        || ltb 0 (env.nr_queued k.dsq_local))

pub expire : Kernel → ℕ → ℕ → TickState → TickState
expire k cpu tier s =
    let s' = publish_tier tier s in
    record s' { calls = s'.calls ++ kick_cpu cpu k.kick_preempt ∷ [] }

pub follow : Kernel → Rodata → Env → ℕ → ℕ → Flow → TickState
follow k c env cpu tier f = elim f.label [
  | returned ↦ f.state
  | mailbox_dvfs_max ↦ dvfs_max k cpu tier f.state
  | mailbox_dvfs ↦ dvfs c env cpu tier f.state
]

-- The tick of a task that has been stamped.
pub tick_stamped : Kernel → Rodata → Env → ℕ → TickState → TickState
tick_stamped k c env cpu s =
    let tier = get_tier s.task.packed_info in
    let runtime = sub_u32 (u32 env.now) s.task.last_run_at in
    if expired k c env cpu runtime s
    then expire k cpu tier s
    else follow k c env cpu tier (phase2 k c env cpu tier runtime s)

pub tick_ctx : Kernel → Rodata → Env → ℕ → TickState → TickState
tick_ctx k c env cpu s =
    if s.task.last_run_at == 0
    then record s { task = record (s.task) { last_run_at = u32 env.now } }
    else tick_stamped k c env cpu s

pub write_back : World → ℕ → ℕ → TickState → Outcome
write_back w p cpu s = record {
  world = record w {
    tasks = update w.tasks p (some s.task);
    mega_mailbox = update w.mega_mailbox cpu s.mbox;
    global_stats = update w.global_stats cpu s.stats;
  };
  calls = s.calls;
}

pub imperator_tick : Kernel → Rodata → Env → ℕ → World → Outcome
imperator_tick k c env p w =
    let cpu = cpu_idx env.cpu in
    elim (w.tasks p) [
      | none ↦ record { world = w; calls = [] }
      | some t ↦ write_back w p cpu (
          tick_ctx k c env cpu (record {
            task = t;
            mbox = w.mega_mailbox cpu;
            stats = w.global_stats cpu;
            calls = [];
          }))
    ]

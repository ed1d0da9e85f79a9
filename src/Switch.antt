-- ===== src/Switch.antt =====
-- imperator_running and imperator_stopping of src/bpf/imperator.bpf.c: what a context switch records.
pub mod Jitter
pub mod Masks
pub mod Hits
pub mod Contexts
pub mod Frame
pub mod Stale
pub mod Counters
use scx_imperator.Common.{
  ℕ, ◌+◌, ◌-◌, ◌*◌, ◌/◌, ◌%◌, ◌^◌, Bool, Option, none, some, bit_and, bit_or, ltb, ◌==◌,
  if◌then◌else◌, u8, u16, u32, u64, sub_u32, not_u32, not_u64, update, not,
}
use scx_imperator.Intf.{
  cake_tier_idx, cake_tier_max, cpu_idx, get_tier, mbox_tier_mask, mbox_valid_flag,
}
use scx_imperator.State.{TaskCtx, Mailbox, Stats, Rodata, World, bump}
use scx_imperator.Reclassify.{reclassify_task_cold}

-- `(old_ewma * 7 + lat_us) >> 3`, clamped.
pub jitter_ewma : ℕ → ℕ → ℕ
jitter_ewma old lat_us =
    let new_ewma = u32 (old * 7 + lat_us) / 2 ^ 3 in
    if ltb 0xffff new_ewma then 0xffff else new_ewma

-- The stamp of the run, and the latency of the dispatch if the task came through the queue.
unfoldable pub stamp_run : ℕ → TaskCtx → TaskCtx
stamp_run now t =
    let lat_us = sub_u32 (u32 now) t.enqueue_time / 2 ^ 10 in
    if t.enqueue_time == 0 then record t { last_run_at = u32 now } else record t {
      last_run_at = u32 now;
      jitter_ewma_us = jitter_ewma t.jitter_ewma_us lat_us;
      enqueue_time = 0;
    }

pub count_jitter : Rodata → TaskCtx → TaskCtx → Stats → Stats
count_jitter c before after s =
    if c.enable_stats
    then (if before.enqueue_time == 0 then s else record s {
      nr_jitter_ewma_sum = u64 (s.nr_jitter_ewma_sum + after.jitter_ewma_us);
      nr_jitter_ewma_count = bump s.nr_jitter_ewma_count;
    })
    else s

-- `(u8)(MBOX_VALID_FLAG | (cur_flags & ~MBOX_TIER_MASK) | tier)`
pub running_flags : ℕ → ℕ → ℕ
running_flags cur tier =
    u8 (bit_or (bit_or mbox_valid_flag (bit_and cur (not_u32 mbox_tier_mask))) tier)

-- `tier_cpu_mask[tier & 3] |= 1 << cpu` and `tier_cpu_mask[tier & 3] &= ~(1 << cpu)`
unfoldable pub mark_cpu : ℕ → ℕ → (ℕ → ℕ) → ℕ → ℕ
mark_cpu tier cpu masks =
    let i = bit_and tier (cake_tier_max - 1) in update masks i (bit_or (masks i) (2 ^ cpu))

pub unmark_cpu : ℕ → ℕ → (ℕ → ℕ) → ℕ → ℕ
unmark_cpu tier cpu masks =
    let i = bit_and tier (cake_tier_max - 1) in
    update masks i (bit_and (masks i) (not_u64 (2 ^ cpu)))

unfoldable pub run_ctx : Rodata → ℕ → ℕ → ℕ → TaskCtx → World → World
run_ctx c cpu now p t w =
    let t' = stamp_run now t in
    let tier = cake_tier_idx (get_tier t.packed_info) in
    let mbox = w.mega_mailbox cpu in
    record w {
      tasks = update w.tasks p (some t');
      global_stats = update w.global_stats cpu (count_jitter c t t' (w.global_stats cpu));
      mega_mailbox =
          update w.mega_mailbox cpu (record mbox { flags = running_flags mbox.flags tier });
      tier_cpu_mask = mark_cpu tier cpu w.tier_cpu_mask;
    }

unfoldable pub run_by : Rodata → ℕ → ℕ → ℕ → World → Option TaskCtx → World
run_by c cpu now p w none = w
run_by c cpu now p w (some t) = run_ctx c (cpu_idx cpu) now p t w

unfoldable pub imperator_running : Rodata → ℕ → ℕ → ℕ → World → World
imperator_running c cpu now p w = run_by c cpu now p w (w.tasks p)

-- The time is read twice: for the sleep stamp, and by the reclassification.
pub stop_ctx : Rodata → Bool → ℕ → ℕ → ℕ → ℕ → TaskCtx → World → World
stop_ctx c runnable cpu now now' p t w =
    let stamped = record t { sleep_entry_time = if runnable then 0 else u32 now } in
    record w {
      tasks = update w.tasks p (some (reclassify_task_cold c runnable (u32 now') stamped));
      tier_cpu_mask = unmark_cpu (cake_tier_idx (get_tier t.packed_info)) cpu w.tier_cpu_mask;
    }

pub stop_by : Rodata → Bool → ℕ → ℕ → ℕ → ℕ → World → Option TaskCtx → World
stop_by c runnable cpu now now' p w none = w
stop_by c runnable cpu now now' p w (some t) =
    if t.last_run_at == 0 then w else stop_ctx c runnable (cpu_idx cpu) now now' p t w

pub imperator_stopping : Rodata → Bool → ℕ → ℕ → ℕ → ℕ → World → World
imperator_stopping c runnable cpu now now' p w = stop_by c runnable cpu now now' p w (w.tasks p)

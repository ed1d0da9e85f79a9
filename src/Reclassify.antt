-- ===== src/Reclassify.antt =====
-- reclassify_task_cold of src/bpf/imperator.bpf.c: after a bout of running, the average runtime, the
-- deficit, the tier, the stability counter and the slice of a task. `now` is `(u32)scx_bpf_now()`.
-- A store that the source skips when the value is unchanged is made here in any case.
pub mod Average
pub mod Tier
pub mod History
pub mod Preserve
pub mod Paths
pub mod Stop
pub mod Converge
use scx_imperator.Common.{
  ℕ, zero, suc, ◌+◌, ◌-◌, ◌*◌, ◌/◌, ◌%◌, ◌^◌, Bool, true, false, not, ◌&&◌, ◌||◌, ltb, leb, ◌==◌,
  if◌then◌else◌, u8, u16, sub_u32, bit_or, has, table4, ◌<<<◌,
}
use scx_imperator.Intf.{
  cake_tier_bulk, cake_tier_idx, flow_new, tier_gate_t0, tier_gate_t1, tier_gate_t2, get_tier,
  get_stable, has_flag, clear_flag, put_stable_tier, reset_stable, extract_deficit, extract_avg_rt,
  pack_deficit_avg,
}
use scx_imperator.State.{TaskCtx, Rodata, tier_slice}

-- `x > 0xFFFF ? 0xFFFF : (u16)x`
abbrev pub clamp_u16 : ℕ → ℕ
clamp_u16 x = if ltb 0xffff x then 0xffff else x

-- tier_recheck_mask
abbrev pub tier_recheck_mask : ℕ → ℕ
tier_recheck_mask = table4 1023 127 31 15

-- tier_gate_demote and tier_gate_promote
abbrev pub tier_gate_demote : ℕ → ℕ
tier_gate_demote = table4 tier_gate_t0 tier_gate_t1 tier_gate_t2 tier_gate_t2

abbrev pub tier_gate_promote : ℕ → ℕ
tier_gate_promote =
    table4 (tier_gate_t0 - tier_gate_t0 / 10) (tier_gate_t1 - tier_gate_t1 / 10)
      (tier_gate_t2 - tier_gate_t2 / 10) (tier_gate_t2 - tier_gate_t2 / 10)

-- tier_overrun_gate
abbrev pub tier_overrun_gate : ℕ → ℕ
tier_overrun_gate =
    table4 (tier_gate_t0 + tier_gate_t0 / 2) (tier_gate_t1 + tier_gate_t1 / 2)
      (tier_gate_t2 + tier_gate_t2 / 2) 0

-- The bout in ~µs, and the burst since the task last slept.
unfoldable pub bout_us : ℕ → ℕ → ℕ
bout_us now last_run = clamp_u16 (sub_u32 now last_run / 2 ^ 10)

unfoldable pub burst_us : ℕ → ℕ → ℕ
burst_us acc bout = clamp_u16 (acc + bout)

-- The asymmetric average: a shorter burst pulls it down by a quarter of the distance, unless the
-- burst is unfinished, and a longer one up by a sixteenth.
pub ewma : Bool → ℕ → ℕ → ℕ
ewma runnable avg rt =
    if ltb rt avg
    then (if runnable then avg else u16 (avg - avg / 2 ^ 2 + rt / 2 ^ 2))
    else u16 (avg - avg / 2 ^ 4 + rt / 2 ^ 4)

pub spend_deficit : ℕ → ℕ → ℕ
spend_deficit deficit bout = if leb deficit bout then 0 else deficit - bout

-- The gate into tier `i` as a task of `tier` meets it.
abbrev pub gate : ℕ → ℕ → ℕ
gate tier i = if ltb i tier then tier_gate_promote i else tier_gate_demote i

unfoldable pub classify : ℕ → ℕ → ℕ
classify tier avg =
    if ltb avg (gate tier 0)
    then 0
    else if ltb avg (gate tier 1)
    then 1
    else if ltb avg (gate tier 2)
    then 2
    else 3

-- The hard-demote cap.
pub hard_demote : ℕ → ℕ → ℕ → ℕ
hard_demote avg stable tier =
    if ltb (u16 (tier_gate_t2 * 3)) avg && leb 3 stable && ltb tier cake_tier_bulk
    then cake_tier_bulk
    else tier

-- __builtin_popcount, over `w` bits.
pub popcount : ℕ → ℕ → ℕ
popcount zero x = 0
popcount (suc w) x = x % 2 + popcount w (x / 2)

-- What the bit history decides.
pub record Verdict : Type 0 where
  pub tier : ℕ
  pub history : ℕ
  pub stable : ℕ

pub shift_history : ℕ → Bool → ℕ
shift_history history over = u8 (bit_or (history <<< 1) (if over then 1 else 0))

pub check_overrun : ℕ → ℕ → ℕ → ℕ → ℕ → Verdict
unfolding shift_history
check_overrun old_tier rt new_tier stable history =
    let hist = shift_history history (ltb (tier_overrun_gate (cake_tier_idx old_tier)) rt) in
    let forced = u8 (old_tier + 1) in
    if ltb old_tier cake_tier_bulk
    then (if leb 4 (popcount 8 hist)
        then record {
          tier = if ltb new_tier forced then forced else new_tier;
          history = 0;
          stable = 0;
        }
        else record { tier = new_tier; history = hist; stable = stable })
    else record { tier = new_tier; history = history; stable = stable }

-- `tier_changed ? 0 : ((stable < 3) ? stable + 1 : 3)`
pub next_stable : Bool → ℕ → ℕ
next_stable changed stable = if changed then 0 else if ltb stable 3 then stable + 1 else 3

-- The new `packed_info`.
pub repack : ℕ → ℕ → Verdict → Bool → ℕ
repack packed old_tier v exhausted =
    let changed = not (v.tier == old_tier) in
    let stable' = next_stable changed v.stable in
    let merged = put_stable_tier stable' v.tier packed in
    if changed || exhausted || not (stable' == v.stable)
    then (if exhausted then clear_flag flow_new merged else merged)
    else packed

-- The average and deficit after a bout.
pub new_avg : Bool → ℕ → TaskCtx → ℕ
new_avg runnable rt t = ewma runnable (extract_avg_rt t.deficit_avg_fused) rt

pub new_deficit : ℕ → TaskCtx → ℕ
new_deficit bout t = spend_deficit (extract_deficit t.deficit_avg_fused) bout

-- What a full reclassification decides.
pub verdict : Bool → ℕ → TaskCtx → Verdict
verdict runnable rt t =
    let old_tier = get_tier t.packed_info in
    let stable = get_stable t.packed_info in
    let avg = new_avg runnable rt t in
    check_overrun old_tier rt (hard_demote avg stable (classify old_tier avg)) stable
      t.overrun_count

pub full_reclassify : Rodata → Bool → ℕ → ℕ → TaskCtx → TaskCtx
full_reclassify c runnable rt bout t =
    let deficit = new_deficit bout t in
    let old_tier = get_tier t.packed_info in
    let v = verdict runnable rt t in
    let exhausted = (deficit == 0) && has_flag flow_new t.packed_info in
    let changed = not (v.tier == old_tier) in
    record t {
      deficit_avg_fused = pack_deficit_avg deficit (new_avg runnable rt t);
      overrun_count = v.history;
      packed_info = repack t.packed_info old_tier v exhausted;
      next_slice = tier_slice c v.tier;
      reclass_counter = if changed then 0 else t.reclass_counter;
      burst_credit = if changed then 0 else t.burst_credit;
    }

-- The early return of a stable task.
pub backoff : Bool → ℕ → ℕ → TaskCtx → TaskCtx
backoff runnable rt bout t =
    let tier = get_tier t.packed_info in
    let avg = new_avg runnable rt t in
    let same = classify tier avg == tier in
    record t {
      deficit_avg_fused = pack_deficit_avg (new_deficit bout t) avg;
      packed_info = if same then t.packed_info else reset_stable t.packed_info;
      reclass_counter = if same then t.reclass_counter else 0;
    }

-- A stable task is looked at in full only when its counter reaches a multiple of the tier's mask + 1.
pub recheck_due : TaskCtx → Bool
recheck_due t =
    not (
      has (u16 (t.reclass_counter + 1))
        (tier_recheck_mask (cake_tier_idx (get_tier t.packed_info))))

-- `burst_acc_us = runnable ? rt_clamped : 0`
pub accumulate : Bool → ℕ → TaskCtx → TaskCtx
accumulate runnable rt t = record t { burst_acc_us = if runnable then rt else 0 }

-- `reclass_counter + 1`, in u16
pub count_stop : TaskCtx → TaskCtx
count_stop t = record t { reclass_counter = u16 (t.reclass_counter + 1) }

pub reclassify_task_cold : Rodata → Bool → ℕ → TaskCtx → TaskCtx
reclassify_task_cold c runnable now t =
    let bout = bout_us now t.last_run_at in
    let rt = burst_us t.burst_acc_us bout in
    let t1 = accumulate runnable rt t in
    if t.last_run_at == 0
    then t
    else if get_stable t.packed_info == 3
    then (if recheck_due t
        then full_reclassify c runnable rt bout (count_stop t1)
        else backoff runnable rt bout (count_stop t1))
    else full_reclassify c runnable rt bout t1

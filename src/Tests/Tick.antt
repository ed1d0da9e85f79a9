-- ===== src/Tests/Tick.antt =====
-- imperator_tick of src/bpf/imperator.bpf.c at concrete inputs.
use scx_imperator.Common.{
  ℕ, zero, suc, ◌+◌, ◌*◌, ◌^◌, ◌≡◌, ◌≢◌, true, List, [], ◌∷◌, some, refl, ap, inl, arith,
}
use scx_imperator.Intf.{get_tier, unpack_starvation_ns, cake_tier_idx, pack_config}
use scx_imperator.Intf.Packed.{get_tier-arith}
use scx_imperator.Intf.Fused.{unpack-pack_config}
use scx_imperator.State.{TaskCtx, cpuperf_set, kick_cpu}
use scx_imperator.Tick.{Env, TickState, tick_ctx, dsq_hint_encode, contended}
use scx_imperator.Tick.Mail.{Publishes}
use scx_imperator.Tick.Starvation.{check_due-arith, kicks, expired_within}
use scx_imperator.Tick.Handler.{tick-Publishes, tick_full_frequency, starves}
use scx_imperator.Tick.Unreached.{IsWithin, Spares, tick_starvation_unreached}
use scx_imperator.Tick.Saturation.{
  Turn, tick_of, mailbox_after, IsLive, AllCalm, turns, starvation_check_lost,
}
use scx_imperator.Tests.Data.{task, holder, kernel, rodata, mailbox, no_stats}

-- A tick at 9 ms: the slice of 20 ms lasts, but T1's threshold of 8 ms is past. Two tasks are on
-- the run queue.
abbrev crowded : Env
crowded = record {
  cpu = 3;
  now = 9001000;
  nr_queued = λ _. 1;
  nr_running = some 2;
  cpuperf_cap = 1024;
}

-- A tick at 1 ms with nothing else to run.
abbrev quiet : Env
quiet = record {
  cpu = 3;
  now = 1001000;
  nr_queued = λ _. 0;
  nr_running = some 1;
  cpuperf_cap = 1024;
}

abbrev at_tick : TaskCtx → TickState
at_tick t = record { task = t; mbox = mailbox; stats = no_stats; calls = [] }

holder_tier : get_tier (2 ^ 28 + 2 ^ 25) ≡ 1
holder_tier = omega (arith, get_tier-arith (2 ^ 28 + 2 ^ 25) (omega arith))

task_tier : get_tier (2 ^ 28) ≡ 1
task_tier = omega (arith, get_tier-arith (2 ^ 28) (omega arith))

t1_threshold : unpack_starvation_ns (pack_config 1953 1024 7812) ≡ 7812 * 1024
t1_threshold = (unpack-pack_config 1953 1024 7812 (omega arith) (omega arith) (omega arith)).2

tick-Publishes_example :
    Publishes (tick_ctx kernel rodata crowded 3 (at_tick task)).mbox (get_tier task.packed_info)
tick-Publishes_example =
    tick-Publishes kernel rodata crowded 3 (at_tick task) (omega arith) (omega arith)

-- The same instant without a second task on the run queue.
abbrev alone : Env
alone = record crowded { nr_running = some 1 }

abbrev long_task : TaskCtx
long_task = record task { next_slice = 20000000 }

tick_full_frequency_example :
    let s' = tick_ctx kernel rodata alone 3 (at_tick long_task) in
    (s'.mbox.dsq_hint ≡ dsq_hint_encode 1024)
    × (0 ≢ dsq_hint_encode 1024 → s'.calls ≡ cpuperf_set 3 1024 ∷ [])
    × (0 ≡ dsq_hint_encode 1024 → s'.calls ≡ [])
tick_full_frequency_example =
    tick_full_frequency kernel rodata alone 3 (at_tick long_task)
      (ground
        (arith, expired_within kernel rodata alone 3 9000000 (at_tick long_task) (omega arith)))
      (unfold contended in ground (arith, check_due-arith 0)) (omega arith)

-- The same with a slice of 2 ms, the lock-holder flag and all skips left.
holder-starves : starves rodata crowded (at_tick holder) ≡ true
unfolding contended cake_tier_idx
holder-starves = rw holder_tier (rw t1_threshold (ground (arith, check_due-arith 0)))

holder-IsWithin : IsWithin rodata holder
unfolding cake_tier_idx
holder-IsWithin = rw holder_tier (omega (arith, t1_threshold))

tick_starvation_unreached_example :
    Spares (at_tick holder) (tick_ctx kernel rodata crowded 3 (at_tick holder))
    × (holder.last_run_at ≢ 0
        → starves rodata crowded (at_tick holder) ≡ true
        → (tick_ctx kernel rodata crowded 3 (at_tick holder)).calls ≡ kick_cpu 3 2 ∷ [])
tick_starvation_unreached_example =
    tick_starvation_unreached kernel rodata crowded 3 (at_tick holder) holder-IsWithin
      (λ h. inl (omega arith))

-- Turns of a CPU at which one task runs alone.
abbrev turn : Turn
turn = record { env = quiet; task = task; stats = no_stats }

abbrev alone_for : ℕ → List Turn
alone_for zero = []
alone_for (suc n) = turn ∷ alone_for n

turn-IsLive : IsLive kernel rodata 3 turn
turn-IsLive = (omega arith, λ m. expired_within kernel rodata quiet 3 1000000 _ (omega arith))

alone_for-AllCalm : (n : ℕ) → AllCalm kernel rodata 3 (alone_for n)
unfolding contended
alone_for-AllCalm zero = tt
alone_for-AllCalm (suc n) = (turn-IsLive, refl, alone_for-AllCalm n)

turns-alone_for : (n : ℕ) → turns kernel rodata 3 (alone_for n) ≡ n
turns-alone_for zero = refl
turns-alone_for (suc n) = ap suc (turns-alone_for n)

-- The turn that starves in a crowd.
abbrev hungry_turn : Turn
hungry_turn = record { env = crowded; task = long_task; stats = no_stats }

starvation_check_lost_example :
    kicks
      (tick_of kernel rodata 3
        (mailbox_after kernel rodata 3 (mailbox_after kernel rodata 3 mailbox (alone_for 255)) [])
        hungry_turn).calls
    ≡ 0
starvation_check_lost_example =
    starvation_check_lost kernel rodata 3 mailbox (alone_for 255) [] hungry_turn (omega arith)
      (omega (arith, turns-alone_for 255)) (alone_for-AllCalm 255)
      (omega arith, λ m. expired_within kernel rodata crowded 3 9000000 _ (omega arith))

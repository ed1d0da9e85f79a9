-- ===== src/Tests/Race.antt =====
-- A late clearing of a flag by imperator_dispatch of src/bpf/imperator.bpf.c, at concrete inputs.
use scx_imperator.Common.{ℕ, ◌+◌, ◌≡◌, ◌==◌, true, refl, arith}
use scx_imperator.Intf.{cpu_idx, llc_idx, llc_dsq_base}
use scx_imperator.State.{inserts_into}
use scx_imperator.Enqueue.{EnqEnv, enq_llc, imperator_enqueue}
use scx_imperator.Dispatch.{DispatchEnv, search, imperator_dispatch}
use scx_imperator.Dispatch.Tried.{delivers}
use scx_imperator.System.Race.{clear_flag_late, Unasked, imperator_dispatch_race}
use scx_imperator.Tests.Data.{kernel, two, world}

-- Task 7 is queued for the second LLC; CPU 0 belongs to the first, and CPU 5 to the second.
abbrev woken : EnqEnv
woken = record { cpu = 2; now = 9000000; task_cpu = 5; task_flags = 0; enq_flags = 1 }

abbrev waiting : ℕ → ℕ
waiting dsq = 1

abbrev seek : DispatchEnv
seek = record { cpu = 0; moves = λ dsq. dsq == 201; nr_queued = waiting }

abbrev own : DispatchEnv
own = record { cpu = 5; moves = λ dsq. dsq == 201; nr_queued = waiting }

imperator_dispatch_race_example :
    let o = imperator_enqueue kernel two woken world 7 in
    let w' = clear_flag_late 1 o.world in
    (inserts_into (llc_dsq_base + 1) o.calls ≡ true)
    × Unasked 1 (imperator_dispatch two seek w').calls
    × ((search two own w').moved ≡ true)
unfolding enq_llc cpu_idx llc_idx delivers
imperator_dispatch_race_example =
    imperator_dispatch_race kernel two woken seek own world 7 1 (omega arith) (omega arith) refl
      (omega arith) (omega arith) refl refl

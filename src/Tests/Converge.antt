-- ===== src/Tests/Converge.antt =====
-- reclassify_task_cold of src/bpf/imperator.bpf.c over many stops of the same length.
use scx_imperator.Common.{ℕ, zero, suc, ◌+◌, ◌^◌, ◌≤◌, ◌<◌, ◌≡◌, refl, arith, false}
use scx_imperator.State.{TaskCtx}
use scx_imperator.Task.{IsWf}
use scx_imperator.Reclassify.{classify, bout_us, burst_us, reclassify_task_cold}
use scx_imperator.Reclassify.Preserve.{reclassify_task_cold-IsWf}
use scx_imperator.Reclassify.Stop.{judged}
use scx_imperator.Reclassify.Converge.{
  avg_of, Stops, at_first, one_more, Stops-settle, Stops-classify,
}
use scx_imperator.Tests.Data.{task, task-IsWf, rodata}

-- A task of T1, with an average of 1050, whose bursts last 2928.
judged_lem : judged 3000000 task ≡ 2928
unfolding bout_us burst_us
judged_lem = refl

record Many (n : ℕ) : Type 0 where
  last : TaskCtx
  stops : Stops rodata 2928 n task last
  fits : last.deficit_avg_fused < 2 ^ 32

many : (n : ℕ) → Many n
many zero = record { last = task; stops = at_first task; fits = task-IsWf.fused_fits }
many (suc n) =
    let before = many n in
    let u = record task { deficit_avg_fused = before.last.deficit_avg_fused } in
    let wf : IsWf u = let w = task-IsWf in let f = before.fits in ground arith in
    record {
      last = reclassify_task_cold rodata false 3000000 u;
      stops = one_more 3000000 u before.stops refl wf (omega arith) judged_lem;
      fits = (reclassify_task_cold-IsWf rodata false 3000000 u wf).fused_fits;
    }

Stops-settle_example :
    (2928 ≤ avg_of task
      → 37 ≤ 139
      → (2928 ≤ avg_of (many 139).last) × (avg_of (many 139).last ≤ 2928 + 3))
    × (avg_of task ≤ 2928
        → 139 ≤ 139
        → (avg_of (many 139).last ≤ 2928) × (2928 ≤ avg_of (many 139).last + 15))
Stops-settle_example = Stops-settle rodata 2928 (omega arith) (many 139).stops

Stops-classify_example : classify 1 (avg_of (many 139).last) ≡ 2
Stops-classify_example =
    Stops-classify rodata 2928 1 2 (omega arith) (λ h. omega arith) (λ h. omega arith) (omega arith)
      (many 139).stops (omega arith)

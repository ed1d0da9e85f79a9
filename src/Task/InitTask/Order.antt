-- ===== src/Task/InitTask/Order.antt =====
-- imperator_init_task before imperator_enable, for a task that has no context yet.
use scx_imperator.Common.{ℕ, ◌^◌, ◌<◌, ◌≡◌, ◌∙◌, refl, arith, Bool, true, false, Option, some, none}
use scx_imperator.Intf.{get_tier, extract_avg_rt}
use scx_imperator.State.{TaskCtx, Rodata, World}
use scx_imperator.Task.Alloc.{seed_tier, imperator_enable, slow_path}
use scx_imperator.Task.Alloc.Laws.{imperator_enable_lem, alloc_task_ctx_cold_lem}
use scx_imperator.Task.InitTask.{exec_reset, exec_task, fork_task, parent_ctx, imperator_init_task}
use scx_imperator.Reclassify.{classify}

fork_task-none :
    (c : Rodata) (p : ℕ) (parent : Option TaskCtx) (w : World) → fork_task c p parent none w ≡ w
unfolding fork_task
fork_task-none c p none w = refl
fork_task-none c p (some parent) w = refl

pub imperator_init_task-none :
    (c : Rodata) (fork : Bool) (prio p : ℕ) (parent : Option ℕ) (w : World)
    → w.tasks p ≡ none
    → imperator_init_task c fork prio p parent w ≡ w
unfolding imperator_init_task exec_task
imperator_init_task-none c true prio p parent w here =
    rw here (fork_task-none c p (parent_ctx w parent) w)
imperator_init_task-none c false prio p parent w here = rw here refl

-- With a base quantum of 64 bits and storage to be had: a task that has no context when
-- imperator_init_task runs, and is enabled after it, comes to the world that imperator_enable alone
-- makes. Its tier is the one that its nice value seeds, and its average classifies into that tier,
-- also after a fork, whatever the tier of the parent.
pub imperator_enable-init_task :
    (c : Rodata) (fork : Bool) (prio p : ℕ) (parent : Option ℕ) (w : World)
    → c.quantum_ns < 2 ^ 64
    → w.tasks p ≡ none
    → let w' = imperator_enable c true prio p (imperator_init_task c fork prio p parent w) in
      (w' ≡ imperator_enable c true prio p w)
      × (t : TaskCtx) × (w'.tasks p ≡ some t)
      × (get_tier t.packed_info ≡ seed_tier prio)
      × (classify (get_tier t.packed_info) (extract_avg_rt t.deficit_avg_fused) ≡ seed_tier prio)
unfolding slow_path
imperator_enable-init_task c fork prio p parent w fits here =
    let made = alloc_task_ctx_cold_lem c prio fits in
    rw (imperator_init_task-none c fork prio p parent w here)
      (refl, made.0, (imperator_enable_lem c true prio p p w).0 ∙ rw here made.1, made.3, made.4)

pub imperator_init_task_exec :
    (c : Rodata) (prio p : ℕ) (parent : Option ℕ) (w : World) (t : TaskCtx)
    → w.tasks p ≡ some t
    → (imperator_init_task c false prio p parent w).tasks p ≡ some (exec_reset c prio t)
unfolding imperator_init_task exec_task
imperator_init_task_exec c prio p parent w t here = rw here (ground arith)

-- An exec leaves the time stamp of a run alone.
pub exec_reset_stamp :
    (c : Rodata) (prio : ℕ) (t : TaskCtx) → (exec_reset c prio t).last_run_at ≡ t.last_run_at
unfolding exec_reset
exec_reset_stamp c prio t = refl

-- ===== src/Task/InitTask/Contexts.antt =====
-- The contexts over imperator_init_task.
use scx_imperator.Common.{ℕ, ◌≡◌, refl, arith, Bool, true, false, Option, some, none}
use scx_imperator.State.{SameLlcs, TaskCtx, Rodata, World}
use scx_imperator.Task.Idle.{IsIdle, AllIdle, set-AllIdle}
use scx_imperator.Task.Frame.{OnlyTask}
use scx_imperator.Task.InitTask.{
  exec_reset, fork_inherit, exec_task, fork_task, parent_ctx, imperator_init_task,
}
use scx_imperator.Task.InitTask.Laws.{exec_reset-IsWf, fork_inherit-IsWf}

exec_task-AllIdle :
    (c : Rodata) (prio p : ℕ) (o : Option TaskCtx) (w : World)
    → ((t : TaskCtx) → o ≡ some t → IsIdle t)
    → AllIdle w
    → AllIdle (exec_task c prio p o w)
unfolding exec_task exec_reset
exec_task-AllIdle c prio p none w idle all = all
exec_task-AllIdle c prio p (some t) w idle all =
    set-AllIdle w _ p (exec_reset c prio t) refl
      (record { wf = exec_reset-IsWf c prio t (idle t refl).wf; spent = refl }) all

fork_task-AllIdle :
    (c : Rodata) (p : ℕ) (parent child : Option TaskCtx) (w : World)
    → ((t : TaskCtx) → parent ≡ some t → IsIdle t)
    → ((t : TaskCtx) → child ≡ some t → IsIdle t)
    → AllIdle w
    → AllIdle (fork_task c p parent child w)
unfolding fork_task fork_inherit
fork_task-AllIdle c p none child w old new all = all
fork_task-AllIdle c p (some parent) none w old new all = all
fork_task-AllIdle c p (some parent) (some child) w old new all =
    set-AllIdle w _ p (fork_inherit c parent child) refl
      (record {
        wf = fork_inherit-IsWf c parent child (old parent refl).wf (new child refl).wf;
        spent = refl;
      })
      all

parent_idle :
    (w : World) (parent : Option ℕ)
    → AllIdle w
    → (t : TaskCtx) → parent_ctx w parent ≡ some t
    → IsIdle t
unfolding parent_ctx AllIdle
parent_idle w none all t h = absurd (ground arith)
parent_idle w (some q) all t h = all q t h

pub imperator_init_task-AllIdle :
    (c : Rodata) (fork : Bool) (prio p : ℕ) (parent : Option ℕ) (w : World)
    → AllIdle w
    → AllIdle (imperator_init_task c fork prio p parent w)
unfolding imperator_init_task AllIdle
imperator_init_task-AllIdle c true prio p parent w all =
    fork_task-AllIdle c p (parent_ctx w parent) (w.tasks p) w (parent_idle w parent all) (all p) all
imperator_init_task-AllIdle c false prio p parent w all =
    exec_task-AllIdle c prio p (w.tasks p) w (all p) all

exec_task-SameLlcs :
    (c : Rodata) (prio p : ℕ) (o : Option TaskCtx) (w : World) → SameLlcs w (exec_task c prio p o w)
unfolding exec_task
exec_task-SameLlcs c prio p none w = record { same_flags = refl; same_masks = refl }
exec_task-SameLlcs c prio p (some t) w = record { same_flags = refl; same_masks = refl }

fork_task-SameLlcs :
    (c : Rodata) (p : ℕ) (parent child : Option TaskCtx) (w : World)
    → SameLlcs w (fork_task c p parent child w)
unfolding fork_task
fork_task-SameLlcs c p none child w = record { same_flags = refl; same_masks = refl }
fork_task-SameLlcs c p (some parent) none w = record { same_flags = refl; same_masks = refl }
fork_task-SameLlcs c p (some parent) (some child) w = record {
  same_flags = refl;
  same_masks = refl;
}

-- No flag and no mask of an LLC changes.
pub imperator_init_task-SameLlcs :
    (c : Rodata) (fork : Bool) (prio p : ℕ) (parent : Option ℕ) (w : World)
    → SameLlcs w (imperator_init_task c fork prio p parent w)
unfolding imperator_init_task
imperator_init_task-SameLlcs c true prio p parent w =
    fork_task-SameLlcs c p (parent_ctx w parent) (w.tasks p) w
imperator_init_task-SameLlcs c false prio p parent w = exec_task-SameLlcs c prio p (w.tasks p) w

exec_task-OnlyTask :
    (c : Rodata) (prio p : ℕ) (o : Option TaskCtx) (w : World)
    → OnlyTask p w (exec_task c prio p o w)
unfolding exec_task
exec_task-OnlyTask c prio p none w = record { same_tiers = refl; others = λ q other. refl }
exec_task-OnlyTask c prio p (some t) w = record {
  same_tiers = refl;
  others = λ q other. rw other refl;
}

fork_task-OnlyTask :
    (c : Rodata) (p : ℕ) (parent child : Option TaskCtx) (w : World)
    → OnlyTask p w (fork_task c p parent child w)
unfolding fork_task
fork_task-OnlyTask c p none child w = record { same_tiers = refl; others = λ q other. refl }
fork_task-OnlyTask c p (some parent) none w = record { same_tiers = refl; others = λ q other. refl }
fork_task-OnlyTask c p (some parent) (some child) w = record {
  same_tiers = refl;
  others = λ q other. rw other refl;
}

pub imperator_init_task-OnlyTask :
    (c : Rodata) (fork : Bool) (prio p : ℕ) (parent : Option ℕ) (w : World)
    → OnlyTask p w (imperator_init_task c fork prio p parent w)
unfolding imperator_init_task
imperator_init_task-OnlyTask c true prio p parent w =
    fork_task-OnlyTask c p (parent_ctx w parent) (w.tasks p) w
imperator_init_task-OnlyTask c false prio p parent w = exec_task-OnlyTask c prio p (w.tasks p) w

exec_task_stats :
    (c : Rodata) (prio p : ℕ) (o : Option TaskCtx) (w : World)
    → (exec_task c prio p o w).global_stats ≡ w.global_stats
unfolding exec_task
exec_task_stats c prio p none w = refl
exec_task_stats c prio p (some t) w = refl

fork_task_stats :
    (c : Rodata) (p : ℕ) (parent child : Option TaskCtx) (w : World)
    → (fork_task c p parent child w).global_stats ≡ w.global_stats
unfolding fork_task
fork_task_stats c p none child w = refl
fork_task_stats c p (some parent) none w = refl
fork_task_stats c p (some parent) (some child) w = refl

pub imperator_init_task_stats :
    (c : Rodata) (fork : Bool) (prio p : ℕ) (parent : Option ℕ) (w : World)
    → (imperator_init_task c fork prio p parent w).global_stats ≡ w.global_stats
unfolding imperator_init_task
imperator_init_task_stats c true prio p parent w =
    fork_task_stats c p (parent_ctx w parent) (w.tasks p) w
imperator_init_task_stats c false prio p parent w = exec_task_stats c prio p (w.tasks p) w

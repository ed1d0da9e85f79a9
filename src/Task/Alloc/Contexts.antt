-- ===== src/Task/Alloc/Contexts.antt =====
-- The contexts over imperator_enable.
use scx_imperator.Common.{
  ℕ, ◌^◌, ◌<◌, ◌≡◌, ◌∙◌, sym, refl, arith, Bool, true, false, Option, some, none, subst,
}
use scx_imperator.State.{SameLlcs, TaskCtx, Rodata, World}
use scx_imperator.Task.{IsWf}
use scx_imperator.Task.Idle.{IsIdle, AllIdle, set-AllIdle}
use scx_imperator.Task.Frame.{OnlyTask}
use scx_imperator.Task.Alloc.{
  alloc_task_ctx_cold, store_new, slow_path, get_task_ctx, imperator_enable,
}
use scx_imperator.Task.Alloc.Laws.{alloc_task_ctx_cold_lem}

some_same : (t u : TaskCtx) → some t ≡ some u → t ≡ u
some_same t u e = ground (arith, e)

fresh_idle :
    (c : Rodata) (storage : Bool) (prio : ℕ)
    → c.quantum_ns < 2 ^ 64
    → (t : TaskCtx) → alloc_task_ctx_cold c storage prio ≡ some t
    → IsIdle t
unfolding alloc_task_ctx_cold
fresh_idle c false prio fits t h = absurd (ground arith)
fresh_idle c true prio fits t h =
    let made = alloc_task_ctx_cold_lem c prio fits in
    record {
      wf = subst IsWf (some_same made.0 t (sym made.1 ∙ h)) made.2;
      spent = ground (arith, h);
    }

enabled_idle :
    (o fresh : Option TaskCtx)
    → ((t : TaskCtx) → o ≡ some t → IsIdle t)
    → ((t : TaskCtx) → fresh ≡ some t → IsIdle t)
    → (t : TaskCtx) → slow_path o true fresh ≡ some t
    → IsIdle t
unfolding slow_path
enabled_idle none fresh idle new t h = new t h
enabled_idle (some u) fresh idle new t h = idle t h

store_new-AllIdle :
    (w : World) (p : ℕ) (o : Option TaskCtx)
    → ((t : TaskCtx) → o ≡ some t → IsIdle t)
    → AllIdle w
    → AllIdle (store_new w p o)
unfolding store_new
store_new-AllIdle w p none idle all = all
store_new-AllIdle w p (some t) idle all = set-AllIdle w _ p t refl (idle t refl) all

pub imperator_enable-AllIdle :
    (c : Rodata) (storage : Bool) (prio p : ℕ) (w : World)
    → c.quantum_ns < 2 ^ 64
    → AllIdle w
    → AllIdle (imperator_enable c storage prio p w)
unfolding imperator_enable get_task_ctx AllIdle
imperator_enable-AllIdle c storage prio p w fits all =
    store_new-AllIdle w p (get_task_ctx c w p true storage prio)
      (enabled_idle (w.tasks p) (alloc_task_ctx_cold c storage prio) (all p)
        (fresh_idle c storage prio fits))
      all

store_new-SameLlcs : (w : World) (p : ℕ) (o : Option TaskCtx) → SameLlcs w (store_new w p o)
unfolding store_new
store_new-SameLlcs w p none = record { same_flags = refl; same_masks = refl }
store_new-SameLlcs w p (some t) = record { same_flags = refl; same_masks = refl }

-- No flag and no mask of an LLC changes.
pub imperator_enable-SameLlcs :
    (c : Rodata) (storage : Bool) (prio p : ℕ) (w : World)
    → SameLlcs w (imperator_enable c storage prio p w)
unfolding imperator_enable
imperator_enable-SameLlcs c storage prio p w =
    store_new-SameLlcs w p (get_task_ctx c w p true storage prio)

store_new-OnlyTask : (w : World) (p : ℕ) (o : Option TaskCtx) → OnlyTask p w (store_new w p o)
unfolding store_new
store_new-OnlyTask w p none = record { same_tiers = refl; others = λ q other. refl }
store_new-OnlyTask w p (some t) = record { same_tiers = refl; others = λ q other. rw other refl }

pub imperator_enable-OnlyTask :
    (c : Rodata) (storage : Bool) (prio p : ℕ) (w : World)
    → OnlyTask p w (imperator_enable c storage prio p w)
unfolding imperator_enable
imperator_enable-OnlyTask c storage prio p w =
    store_new-OnlyTask w p (get_task_ctx c w p true storage prio)

store_new_stats :
    (w : World) (p : ℕ) (o : Option TaskCtx) → (store_new w p o).global_stats ≡ w.global_stats
unfolding store_new
store_new_stats w p none = refl
store_new_stats w p (some t) = refl

pub imperator_enable_stats :
    (c : Rodata) (storage : Bool) (prio p : ℕ) (w : World)
    → (imperator_enable c storage prio p w).global_stats ≡ w.global_stats
unfolding imperator_enable
imperator_enable_stats c storage prio p w =
    store_new_stats w p (get_task_ctx c w p true storage prio)

-- ===== src/Task/Idle.antt =====
-- What holds of the contexts between two callbacks, and how a change of the storage keeps it.
use scx_imperator.Common.{
  ℕ, ◌≡◌, ◌∙◌, sym, ap, subst, Option, some, ◌==◌, Bool-cases, inl, inr, arith, update,
}
use scx_imperator.State.{TaskCtx, World}
use scx_imperator.Task.{IsWf}

-- What holds of a task between two callbacks, as far as the queueing goes.
pub record IsIdle (t : TaskCtx) : Type 0 where
  pub wf : IsWf t
  pub spent : t.burst_credit ≡ 0

-- Every context in the storage is well formed, and has no burst credit left.
unfoldable pub AllIdle : World → Type 0
AllIdle w = (q : ℕ) (t : TaskCtx) → w.tasks q ≡ some t → IsIdle t

some-IsIdle : (t u : TaskCtx) → some t ≡ some u → IsIdle t → IsIdle u
some-IsIdle t u e idle = let same : t ≡ u = ground (arith, e) in subst IsIdle same idle

-- Storage that is not touched.
pub same-AllIdle : (w w' : World) → w'.tasks ≡ w.tasks → AllIdle w → AllIdle w'
unfolding AllIdle
same-AllIdle w w' same all q t h = all q t (sym (ap (λ (f : ℕ → Option TaskCtx). f q) same) ∙ h)

-- One task's new context.
pub set-AllIdle :
    (w w' : World) (p : ℕ) (t : TaskCtx)
    → w'.tasks ≡ update w.tasks p (some t)
    → IsIdle t
    → AllIdle w
    → AllIdle w'
unfolding AllIdle
set-AllIdle w w' p t set idle all q u h =
    let at_q : update w.tasks p (some t) q ≡ some u =
      sym (ap (λ (f : ℕ → Option TaskCtx). f q) set) ∙ h in
    elim (Bool-cases (p == q)) [
      | inl e ↦ some-IsIdle t u (rw e at at_q) idle
      | inr other ↦ all q u (rw other at at_q)
    ]

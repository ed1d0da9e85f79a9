-- ===== src/Task/Frame.antt =====
-- What a callback of src/bpf/imperator.bpf.c or a probe of src/bpf/lock.bpf.c leaves alone: the CPU
-- masks of the tiers, and the tasks that are running.
use scx_imperator.Common.{
  ℕ, ◌≡◌, ◌∙◌, refl, sym, ap, Bool, true, false, not, Option, none, some, ◌==◌, Bool-cases, inl,
  inr, update, ==_iff,
}
use scx_imperator.Intf.{get_tier}
use scx_imperator.State.{TaskCtx, World}

-- Nothing changes but the context of one task, as far as contexts and the masks of the tiers go.
pub record OnlyTask (p : ℕ) (w w' : World) : Type 0 where
  pub same_tiers : w'.tier_cpu_mask ≡ w.tier_cpu_mask
  pub others : (q : ℕ) → (p == q) ≡ false → w'.tasks q ≡ w.tasks q

-- The tier of a task that has a context.
abbrev pub tier_of : Option TaskCtx → Option ℕ
tier_of none = none
tier_of (some t) = some (get_tier t.packed_info)

-- The context, if there is one, has the time at which the task started to run.
abbrev pub is_stamped : Option TaskCtx → Bool
is_stamped none = true
is_stamped (some t) = not (t.last_run_at == 0)

-- The task goes on in its tier, and keeps its time.
pub record RunsOn (o o' : Option TaskCtx) : Type 0 where
  pub same_tier : tier_of o' ≡ tier_of o
  pub stays_stamped : is_stamped o ≡ true → is_stamped o' ≡ true

pub same-RunsOn : (o o' : Option TaskCtx) → o' ≡ o → RunsOn o o'
same-RunsOn o o' e = record { same_tier = ap tier_of e; stays_stamped = λ h. ap is_stamped e ∙ h }

-- Every task goes on, whether it is running or not.
pub record AllRunOn (w w' : World) : Type 0 where
  pub same_tiers : w'.tier_cpu_mask ≡ w.tier_cpu_mask
  pub go_on : (q : ℕ) → RunsOn (w.tasks q) (w'.tasks q)

-- One task's new context, with which it goes on.
pub set-AllRunOn :
    (w w' : World) (p : ℕ) (t : TaskCtx)
    → w'.tier_cpu_mask ≡ w.tier_cpu_mask
    → w'.tasks ≡ update w.tasks p (some t)
    → RunsOn (w.tasks p) (some t)
    → AllRunOn w w'
set-AllRunOn w w' p t tiers set on = record {
  same_tiers = tiers;
  go_on = λ q. rw set (elim (Bool-cases (p == q)) [
    | inl e ↦ rw e (rw (sym ((==_iff p q).0 e)) on)
    | inr other ↦ rw other (same-RunsOn (w.tasks q) (w.tasks q) refl)
  ]);
}

pub same-AllRunOn :
    (w w' : World) → w'.tier_cpu_mask ≡ w.tier_cpu_mask → w'.tasks ≡ w.tasks → AllRunOn w w'
same-AllRunOn w w' tiers same = record {
  same_tiers = tiers;
  go_on = λ q. same-RunsOn (w.tasks q) (w'.tasks q) (ap (λ (f : ℕ → Option TaskCtx). f q) same);
}

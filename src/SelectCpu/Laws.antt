-- ===== src/SelectCpu/Laws.antt =====
-- What becomes of a woken task in imperator_select_cpu, on both paths.
pub mod Direct
pub mod Queued
use scx_imperator.Common.{
  ℕ, ◌+◌, ◌^◌, ◌<◌, ◌≡◌, ◌∙◌, refl, sym, ap, arith, Bool, true, false, ◌||◌, Option, none, some,
  List, [], ◌∷◌, Bool-cases, inl, inr, ◌==◌, if◌then◌else◌, update, has,
}
use scx_imperator.Intf.{get_tier, get_stable, has_flag, set_flag, irq_wake, flow_new, lock_holder}
use scx_imperator.Intf.Laws.{set_flag-lt, has_flag-set_flag}
use scx_imperator.State.{SameLlcs, TaskCtx, Rodata, World, Kernel}
use scx_imperator.Task.{IsWf}
use scx_imperator.SelectCpu.{SelEnv, irq_context, stamp, stamp_by, imperator_select_cpu, direct}

stamp_by_other :
    (w : World) (p q : ℕ) (o : Option TaskCtx)
    → (p == q) ≡ false
    → (stamp_by w p o).tasks q ≡ w.tasks q
unfolding stamp_by
stamp_by_other w p q none other = refl
stamp_by_other w p q (some t) other = rw other refl

stamp_by-SameLlcs : (w : World) (p : ℕ) (o : Option TaskCtx) → SameLlcs w (stamp_by w p o)
unfolding stamp_by
stamp_by-SameLlcs w p none = record { same_flags = refl; same_masks = refl }
stamp_by-SameLlcs w p (some t) = record { same_flags = refl; same_masks = refl }

module _ (k : Kernel) (env : SelEnv) where
  -- The task's context as the interrupt test leaves it.
  abbrev pub stamped_task : TaskCtx → TaskCtx
  stamped_task t =
      if irq_context k env then record t { packed_info = set_flag irq_wake t.packed_info } else t

  pub stamp_task :
      (w : World) (p : ℕ) (t : TaskCtx)
      → w.tasks p ≡ some t
      → (stamp k env w p).tasks p ≡ some (stamped_task t)
  unfolding stamp stamp_by
  stamp_task w p t here = elim (Bool-cases (irq_context k env)) [
    | inl irq ↦ rw (irq, here) (ground arith)
    | inr calm ↦ rw calm here
  ]

  pub stamp-none : (w : World) (p : ℕ) → w.tasks p ≡ none → (stamp k env w p).tasks p ≡ none
  unfolding stamp stamp_by
  stamp-none w p here = elim (Bool-cases (irq_context k env)) [
    | inl irq ↦ rw (irq, here) here
    | inr calm ↦ rw calm here
  ]

  pub stamp_other : (w : World) (p q : ℕ) → (p == q) ≡ false → (stamp k env w p).tasks q ≡ w.tasks q
  unfolding stamp
  stamp_other w p q other = elim (Bool-cases (irq_context k env)) [
    | inl irq ↦ rw irq (stamp_by_other w p q (w.tasks p) other)
    | inr calm ↦ rw calm refl
  ]

  pub stamped_flag :
      (t : TaskCtx)
      → IsWf t
      → has_flag irq_wake (stamped_task t).packed_info
        ≡ (irq_context k env || has_flag irq_wake t.packed_info)
  stamped_flag t wf = elim (Bool-cases (irq_context k env)) [
    | inl irq ↦ rw irq (has_flag-set_flag irq_wake irq_wake t.packed_info wf.packed_fits)
    | inr calm ↦ rw calm refl
  ]

  pub stamped-IsWf : (t : TaskCtx) → IsWf t → IsWf (stamped_task t)
  stamped-IsWf t wf = ground (arith, set_flag-lt irq_wake t.packed_info wf.packed_fits)

  pub stamp-SameLlcs : (w : World) (p : ℕ) → SameLlcs w (stamp k env w p)
  unfolding stamp
  stamp-SameLlcs w p = ground (arith, stamp_by-SameLlcs w p (w.tasks p))

stamp_by_tiers :
    (w : World) (p : ℕ) (o : Option TaskCtx) → (stamp_by w p o).tier_cpu_mask ≡ w.tier_cpu_mask
unfolding stamp_by
stamp_by_tiers w p none = refl
stamp_by_tiers w p (some t) = refl

pub stamp_tiers :
    (k : Kernel) (env : SelEnv) (w : World) (p : ℕ)
    → (stamp k env w p).tier_cpu_mask ≡ w.tier_cpu_mask
unfolding stamp
stamp_tiers k env w p = ground (arith, stamp_by_tiers w p (w.tasks p))

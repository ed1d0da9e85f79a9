-- ===== src/SelectCpu/Laws/Direct.antt =====
-- imperator_select_cpu on the path of an idle CPU.
use scx_imperator.Common.{
  ℕ, ◌^◌, ◌<◌, ◌≡◌, ◌∙◌, refl, arith, true, ◌||◌, Option, none, some, [], ◌∷◌, bit_or, Bool-cases,
  inl, inr, ◌==◌, if◌then◌else◌,
}
use scx_imperator.Intf.{
  has_flag, set_flag, clear_flag, irq_wake, flow_new, lock_holder, cake_tier_critical, cpu_idx,
}
use scx_imperator.Intf.Laws.{
  clear_flag-lt, has_flag-set_flag, get_tier-set_flag, get_stable-set_flag,
}
use scx_imperator.State.{TaskCtx, Stats, Rodata, World, Kernel, dsq_insert, tier_slice}
use scx_imperator.Task.{IsWf}
use scx_imperator.Enqueue.Boost.Policy.{Consumed, cleared-Consumed, quiet-Consumed}
use scx_imperator.SelectCpu.{
  SelEnv, Taken, consume_irq_wake_get_tier_slice, irq_context, stamp, direct, steer_to_pcore,
  imperator_select_cpu,
}
use scx_imperator.SelectCpu.Laws.{stamped_task, stamp_task, stamp-none, stamped_flag, stamped-IsWf}

-- A stamp and its consumption leave the rest of the word.
stamped-Consumed : (p q : ℕ) → p < 2 ^ 32 → Consumed (set_flag irq_wake p) q → Consumed p q
stamped-Consumed p q h con = record {
  no_irq = con.no_irq;
  same_tier = con.same_tier ∙ get_tier-set_flag irq_wake p h;
  same_stable = con.same_stable ∙ get_stable-set_flag irq_wake p h;
  same_new = con.same_new ∙ has_flag-set_flag irq_wake flow_new p h;
  same_holder = con.same_holder ∙ has_flag-set_flag irq_wake lock_holder p h;
}

-- The task after its insertion.
pub record Spent (before : TaskCtx) (after : Option TaskCtx) : Type 0 where
  pub task : TaskCtx
  pub there : after ≡ some task
  pub spent : Consumed before.packed_info task.packed_info
  pub wf : IsWf task
  pub same_credit : task.burst_credit ≡ before.burst_credit

module _ (c : Rodata) (t : TaskCtx) (s : Stats) (wf : IsWf t) where
  abbrev taken : Taken
  taken = consume_irq_wake_get_tier_slice c (some t) s

  consume_slice :
      taken.slice_out
      ≡ (if has_flag irq_wake t.packed_info then tier_slice c cake_tier_critical else t.next_slice)
  unfolding consume_irq_wake_get_tier_slice
  consume_slice = ground arith

  consume-Spent : Spent t taken.task
  unfolding consume_irq_wake_get_tier_slice
  consume-Spent = elim (Bool-cases (has_flag irq_wake t.packed_info)) [
    | inl fired ↦ record {
      task = record t { packed_info = clear_flag irq_wake t.packed_info };
      there = rw fired refl;
      spent = cleared-Consumed t.packed_info wf.packed_fits;
      wf = ground (arith, clear_flag-lt irq_wake t.packed_info wf.packed_fits);
      same_credit = refl;
    }
    | inr quiet ↦ record {
      task = t;
      there = rw quiet refl;
      spent = quiet-Consumed t.packed_info quiet;
      wf = wf;
      same_credit = refl;
    }
  ]

stamped-Spent :
    (k : Kernel) (env : SelEnv) (t : TaskCtx) (o : Option TaskCtx)
    → IsWf t
    → Spent (stamped_task k env t) o
    → Spent t o
stamped-Spent k env t o wf h = elim (Bool-cases (irq_context k env)) [
  | inl irq ↦
      let h' = rw irq at h in
      record {
        task = h'.task;
        there = h'.there;
        spent = stamped-Consumed t.packed_info h'.task.packed_info wf.packed_fits h'.spent;
        wf = h'.wf;
        same_credit = h'.same_credit;
      }
  | inr calm ↦ rw calm at h
]

stamped_slice :
    (k : Kernel) (c : Rodata) (env : SelEnv) (t : TaskCtx) (s : Stats)
    → IsWf t
    → (consume_irq_wake_get_tier_slice c (some (stamped_task k env t)) s).slice_out ≡ (
        if irq_context k env || has_flag irq_wake t.packed_info
        then tier_slice c cake_tier_critical
        else t.next_slice)
stamped_slice k c env t s wf =
    let same : (stamped_task k env t).next_slice ≡ t.next_slice = ground arith in
    consume_slice c (stamped_task k env t) s (stamped-IsWf k env t wf)
    ∙ rw (stamped_flag k env t wf, same) refl

-- A task that has a context and finds an idle CPU is inserted once, there and at the tail: with the
-- slice of T0 if an interrupt wakes it or if it has been stamped before, else with its own. The
-- interrupt flag is spent and the rest of the word stays.
pub imperator_select_cpu_idle :
    (k : Kernel) (c : Rodata) (env : SelEnv) (w : World) (p : ℕ) (t : TaskCtx)
    → IsWf t
    → w.tasks p ≡ some t
    → (env.dfl_first env.prev_cpu).idle ≡ true
    → let o = imperator_select_cpu k c env w p in
      let irq = irq_context k env || has_flag irq_wake t.packed_info in
      (o.ret ≡ steer_to_pcore c env (env.dfl_first env.prev_cpu).cpu)
      × (o.outcome.calls
          ≡ dsq_insert p
              (bit_or k.dsq_local_on o.ret)
              (if irq then tier_slice c cake_tier_critical else t.next_slice)
              0
            ∷ [])
      × Spent t (o.outcome.world.tasks p)
unfolding imperator_select_cpu direct
imperator_select_cpu_idle k c env w p t wf here idle =
    let t' = stamped_task k env t in
    let wf' = stamped-IsWf k env t wf in
    let s = (stamp k env w p).global_stats (cpu_idx env.cpu) in
    let self : (p == p) ≡ true = ground arith in
    rw (idle, stamp_task k env w p t here)
      (
        refl,
        rw (stamped_slice k c env t s wf) refl,
        rw self (stamped-Spent k env t _ wf (consume-Spent c t' s wf')),
      )

-- A task without a context is inserted there with the base quantum, and gets no context.
pub imperator_select_cpu_new :
    (k : Kernel) (c : Rodata) (env : SelEnv) (w : World) (p : ℕ)
    → w.tasks p ≡ none
    → (env.dfl_first env.prev_cpu).idle ≡ true
    → let o = imperator_select_cpu k c env w p in
      (o.outcome.calls ≡ dsq_insert p (bit_or k.dsq_local_on o.ret) c.quantum_ns 0 ∷ [])
      × (o.outcome.world.tasks p ≡ none)
unfolding imperator_select_cpu direct consume_irq_wake_get_tier_slice
imperator_select_cpu_new k c env w p here idle =
    rw (idle, stamp-none k env w p here) (refl, ground arith)

-- ===== src/Enqueue/Laws.antt =====
-- imperator_enqueue as a whole: one insertion on every path, the state that it keeps, and what a
-- woken task is queued with.
use scx_imperator.Common.{
  ℕ, ◌+◌, ◌<◌, ◌≡◌, ◌≢◌, ◌∙◌, refl, inl, inr, arith, Option, some, none, List, [], ◌∷◌, has,
  Bool-cases, u32,
}
use scx_imperator.Intf.{
  get_tier, has_flag, irq_wake, mbox_valid_flag, mbox_get_tier, cake_tier_idx, llc_dsq_base,
  cpu_idx, cake_tier_interact, cake_tier_frame, cake_tier_bulk,
}
use scx_imperator.Intf.Laws.{get_tier-lt}
use scx_imperator.Intf.Fused.{cake_tier_idx-arith, llc_idx-arith}
use scx_imperator.State.{TaskCtx, Rodata, World, Kernel, Call, dsq_insert_vtime, Outcome}
use scx_imperator.Task.{IsWf}
use scx_imperator.Task.Idle.{IsIdle}
use scx_imperator.Enqueue.{
  EnqEnv, enq_llc, llc_mark_nonempty, enqueue_plain, enqueue_ctx, imperator_enqueue, enqueue_by,
  stages, advance,
}
use scx_imperator.Enqueue.Recovery.{
  recover_from_sleep, recover_from_sleep-IsWf, recover_from_sleep_keeps,
}
use scx_imperator.Enqueue.Kick.Quiet.{AtMostKick, silent, kick_victim-AtMostKick}
use scx_imperator.Enqueue.Burst.{EnqState, burst, burst-IsWf}
use scx_imperator.Enqueue.Burst.Grant.{burst_lem, burst_keeps}
use scx_imperator.Enqueue.Boost.Policy.{boost_lem, boost_keeps, policy}

-- One insertion, into the queue of the LLC of the task's CPU, and no other call but one kick at most.
pub record Inserts (k : Kernel) (c : Rodata) (env : EnqEnv) (p : ℕ) (o : Outcome) : Type 0 where
  pub slice : ℕ
  pub vtime : ℕ
  pub kicks : List Call
  pub inserted :
      o.calls ≡ dsq_insert_vtime p (llc_dsq_base + enq_llc c env) slice vtime env.enq_flags ∷ kicks
  pub few : AtMostKick k kicks
  pub in_range : enq_llc c env < 8
  pub marked : o.world.llc_nonempty (enq_llc c env) ≢ 0

enq_llc-lt : (c : Rodata) (env : EnqEnv) → enq_llc c env < 8
unfolding enq_llc
enq_llc-lt c env = omega (arith, llc_idx-arith (c.cpu_llc_id (cpu_idx env.task_cpu)))

mark_sets : (llc : ℕ) (w : World) → llc < 8 → (llc_mark_nonempty llc w).llc_nonempty llc ≢ 0
unfolding llc_mark_nonempty
mark_sets llc w h = ground (arith, llc_idx-arith llc)

pub mark_tasks : (llc : ℕ) (w : World) → (llc_mark_nonempty llc w).tasks ≡ w.tasks
unfolding llc_mark_nonempty
mark_tasks llc w = ground arith

module _ (k : Kernel) (c : Rodata) (env : EnqEnv) (w : World) (p : ℕ) where
  plain-Inserts : (tier : ℕ) → Inserts k c env p (enqueue_plain c env w p tier)
  unfolding enqueue_plain
  plain-Inserts tier = record {
    slice = _;
    vtime = _;
    kicks = [];
    inserted = refl;
    few = silent;
    in_range = enq_llc-lt c env;
    marked = mark_sets (enq_llc c env) w (enq_llc-lt c env);
  }

  ctx-Inserts : (t : TaskCtx) → Inserts k c env p (enqueue_ctx k c env w p t)
  unfolding enqueue_ctx
  ctx-Inserts t = record {
    slice = _;
    vtime = _;
    kicks = _;
    inserted = refl;
    few = kick_victim-AtMostKick k w (enq_llc c env) (stages k c env w t).tier;
    in_range = enq_llc-lt c env;
    marked = mark_sets (enq_llc c env) _ (enq_llc-lt c env);
  }

  by-Inserts : (o : Option TaskCtx) → Inserts k c env p (enqueue_by k c env w p o)
  unfolding enqueue_by
  by-Inserts none =
      let t1 = plain-Inserts cake_tier_interact in
      let t2 = plain-Inserts cake_tier_frame in
      let t3 = plain-Inserts cake_tier_bulk in ground arith
  by-Inserts (some t) =
      let plain = plain-Inserts (cake_tier_idx (get_tier t.packed_info)) in
      let full = ctx-Inserts t in ground arith

  -- On every path the first call of the callback puts the task into the queue of the LLC of the CPU
  -- that it was last on, which is one of the eight, with the flags that the callback was given. There
  -- is no further call but one kick at most, and the LLC is left marked as non-empty.
  pub imperator_enqueue-Inserts : Inserts k c env p (imperator_enqueue k c env w p)
  unfolding imperator_enqueue
  imperator_enqueue-Inserts = by-Inserts (w.tasks p)

-- The stages of the wakeup and preemption path, one after the other.
module _ (k : Kernel) (c : Rodata) (env : EnqEnv) (w : World) (t : TaskCtx) (idle : IsIdle t) where
  abbrev pub recovered : TaskCtx
  recovered = recover_from_sleep env.now (record t { enqueue_time = u32 env.now })

  abbrev pub before : EnqState
  before = record {
    task = recovered;
    stats = w.global_stats (cpu_idx env.cpu);
    tier = cake_tier_idx (get_tier recovered.packed_info);
    slice = recovered.next_slice;
  }

  abbrev pub after_burst : EnqState
  after_burst = burst k c env.enq_flags before

  stamped-IsWf : IsWf (record t { enqueue_time = u32 env.now })
  stamped-IsWf = let wf = idle.wf in ground arith

  recovered-IsWf : IsWf recovered
  recovered-IsWf = recover_from_sleep-IsWf env.now _ stamped-IsWf

  pub recovered_keeps :
      (recovered.burst_credit ≡ 0)
      × (recovered.packed_info ≡ t.packed_info)
      × (recovered.next_slice ≡ t.next_slice)
  recovered_keeps =
      let r = recover_from_sleep_keeps env.now (record t { enqueue_time = u32 env.now }) in
      (r.0 ∙ idle.spent, r.1, r.2)

  before_tier : before.tier ≡ get_tier t.packed_info
  before_tier = ground (
    arith,
    recovered_keeps.1,
    cake_tier_idx-arith (get_tier t.packed_info),
    get_tier-lt t.packed_info (idle.wf).packed_fits,
  )

  pub before_tier-lt : before.tier < 4
  before_tier-lt = omega (arith, before_tier, get_tier-lt t.packed_info (idle.wf).packed_fits)

  abbrev pub tier_at : ℕ
  tier_at =
      policy (has_flag irq_wake t.packed_info) (has env.enq_flags k.enq_wakeup)
        (has (w.mega_mailbox (cpu_idx env.cpu)).flags mbox_valid_flag)
        (mbox_get_tier (w.mega_mailbox (cpu_idx env.cpu)).flags) (get_tier t.packed_info)

  after_tier : after_burst.tier ≡ get_tier t.packed_info
  after_tier = (burst_keeps k c env.enq_flags before).1 ∙ before_tier

  after_packed : after_burst.task.packed_info ≡ t.packed_info
  after_packed = (burst_keeps k c env.enq_flags before).0 ∙ recovered_keeps.1

  after_credit : after_burst.task.burst_credit ≡ 0
  after_credit =
      let r = burst_lem k c env.enq_flags before before_tier-lt recovered_keeps.0 in
      elim (Bool-cases (has env.enq_flags k.enq_preempt)) [ inl h ↦ (r.0 h).0 | inr h ↦ (r.1 h).0 ]

  pub boosted :
      let s = stages k c env w t in
      (s.tier ≡ tier_at)
      × (s.slice ≡ after_burst.slice)
      × (s.task.burst_credit ≡ 0)
      × IsWf s.task
      × (advance c s.task.packed_info ≡ advance c t.packed_info)
  unfolding stages advance
  boosted =
      let mbox = (w.mega_mailbox (cpu_idx env.cpu)).flags in
      let wf = burst-IsWf k c env.enq_flags before recovered-IsWf in
      let r =
        boost_lem k c env.enq_flags mbox after_burst wf
          (omega (arith, after_tier, before_tier, before_tier-lt)) in
      let credit = (boost_keeps k c env.enq_flags mbox after_burst).0 in
      let flags = r.2 in
      (
        r.0 ∙ rw after_tier (rw after_packed refl),
        r.1,
        credit ∙ after_credit,
        r.3,
        rw (flags.same_new, flags.same_holder) (rw after_packed refl),
      )

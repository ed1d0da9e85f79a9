-- ===== src/Enqueue/Aging.antt =====
-- The order in which imperator_enqueue queues tasks: who may be ahead of whom.
use scx_imperator.Common.{ℕ, ◌+◌, ◌*◌, ◌^◌, ◌≤◌, ◌<◌, arith, Option, some, none, List, ◌∷◌}
use scx_imperator.Intf.{
  get_tier, cake_tier_idx, cake_tier_interact, cake_tier_frame, cake_tier_bulk,
}
use scx_imperator.State.{TaskCtx, Rodata, World, Kernel, Call, dsq_insert_vtime, Outcome}
use scx_imperator.Deadline.{budget, tier_deadline}
use scx_imperator.Deadline.Order.{tier_deadline_window}
use scx_imperator.Enqueue.{
  EnqEnv, enqueue_plain, enqueue_ctx, imperator_enqueue, enqueue_by, stages, advance,
}

-- The first call queues the task with the deadline.
pub data QueuesAt (p vtime : ℕ) : List Call → Type 0 where
  queues_at :
      (dsq slice flags : ℕ) (kicks : List Call)
      → QueuesAt p vtime (dsq_insert_vtime p dsq slice vtime flags ∷ kicks)

-- The deadline is that of some tier, with an advance of at most two bonuses.
record Deadlined (c : Rodata) (env : EnqEnv) (p : ℕ) (o : Outcome) : Type 0 where
  tier : ℕ
  adv : ℕ
  small : adv ≤ 2 * c.new_flow_bonus_ns
  queues : QueuesAt p (tier_deadline c env.now tier adv) o.calls

advance_small : (c : Rodata) (packed : ℕ) → advance c packed ≤ 2 * c.new_flow_bonus_ns
unfolding advance
advance_small c packed = ground arith

module _ (k : Kernel) (c : Rodata) (env : EnqEnv) (w : World) (p : ℕ) where
  plain-Deadlined : (tier : ℕ) → Deadlined c env p (enqueue_plain c env w p tier)
  unfolding enqueue_plain
  plain-Deadlined tier = record {
    tier = tier;
    adv = 0;
    small = omega arith;
    queues = queues_at _ _ _ _;
  }

  ctx-Deadlined : (t : TaskCtx) → Deadlined c env p (enqueue_ctx k c env w p t)
  unfolding enqueue_ctx
  ctx-Deadlined t = record {
    tier = (stages k c env w t).tier;
    adv = advance c (stages k c env w t).task.packed_info;
    small = advance_small c _;
    queues = queues_at _ _ _ _;
  }

  by-Deadlined : (o : Option TaskCtx) → Deadlined c env p (enqueue_by k c env w p o)
  unfolding enqueue_by
  by-Deadlined none =
      let t1 = plain-Deadlined cake_tier_interact in
      let t2 = plain-Deadlined cake_tier_frame in
      let t3 = plain-Deadlined cake_tier_bulk in ground arith
  by-Deadlined (some t) =
      let plain = plain-Deadlined (cake_tier_idx (get_tier t.packed_info)) in
      let full = ctx-Deadlined t in ground arith

  imperator_enqueue-Deadlined : Deadlined c env p (imperator_enqueue k c env w p)
  unfolding imperator_enqueue
  imperator_enqueue-Deadlined = by-Deadlined (w.tasks p)

-- Bounded overtaking: if no budget of the eight entries of the table is longer than `b`, and time
-- and budget stay within 64 bits, a task that is queued by `b` and two new-flow bonuses later than
-- another has no earlier deadline, on whatever paths the two are queued and whatever their contexts.
pub imperator_enqueue_aging :
    (k : Kernel) (c : Rodata) (env env' : EnqEnv) (w w' : World) (p p' b : ℕ)
    → ((t : ℕ) → t < 8 → budget c t ≤ b)
    → env.now + b + 2 * c.new_flow_bonus_ns ≤ env'.now
    → env'.now + b < 2 ^ 64
    → (v : ℕ) × (v' : ℕ) × QueuesAt p v (imperator_enqueue k c env w p).calls
      × QueuesAt p' v' (imperator_enqueue k c env' w' p').calls
      × v ≤ v'
imperator_enqueue_aging k c env env' w w' p p' b longest waited fits =
    let d = imperator_enqueue-Deadlined k c env w p in
    let d' = imperator_enqueue-Deadlined k c env' w' p' in
    let early = tier_deadline_window c env.now d.tier d.adv b longest (omega (arith, waited)) in
    let late = tier_deadline_window c env'.now d'.tier d'.adv b longest fits in
    let small = d'.small in
    (_, _, d.queues, d'.queues, omega (arith, early.0, late.1, small, waited))

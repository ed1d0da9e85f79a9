-- ===== src/Enqueue/Frame.antt =====
-- imperator_enqueue and the other tasks: what the handler leaves alone.
use scx_imperator.Common.{ℕ, arith, Option, some, none, refl}
use scx_imperator.Intf.{
  cake_tier_idx, cake_tier_interact, cake_tier_frame, cake_tier_bulk, get_tier,
}
use scx_imperator.State.{TaskCtx, Rodata, World, Kernel}
use scx_imperator.Task.Frame.{OnlyTask}
use scx_imperator.Enqueue.{
  EnqEnv, enq_llc, llc_mark_nonempty, enqueue_plain, enqueue_ctx, imperator_enqueue, enqueue_by,
}

mark-OnlyTask :
    (p llc : ℕ) (w w' : World) → OnlyTask p w w' → OnlyTask p w (llc_mark_nonempty llc w')
unfolding llc_mark_nonempty
mark-OnlyTask p llc w w' only = record {
  same_tiers = let h = only.same_tiers in ground arith;
  others = λ q other. let h = only.others q other in ground arith;
}

module _ (k : Kernel) (c : Rodata) (env : EnqEnv) (w : World) (p : ℕ) where
  plain-OnlyTask : (tier : ℕ) → OnlyTask p w (enqueue_plain c env w p tier).world
  unfolding enqueue_plain
  plain-OnlyTask tier =
      mark-OnlyTask p (enq_llc c env) w w (record { same_tiers = refl; others = λ q other. refl })

  ctx-OnlyTask : (t : TaskCtx) → OnlyTask p w (enqueue_ctx k c env w p t).world
  unfolding enqueue_ctx
  ctx-OnlyTask t =
      mark-OnlyTask p (enq_llc c env) w _
        (record { same_tiers = refl; others = λ q other. rw other refl })

  by-OnlyTask : (o : Option TaskCtx) → OnlyTask p w (enqueue_by k c env w p o).world
  unfolding enqueue_by
  by-OnlyTask none =
      let t1 = plain-OnlyTask cake_tier_interact in
      let t2 = plain-OnlyTask cake_tier_frame in
      let t3 = plain-OnlyTask cake_tier_bulk in ground arith
  by-OnlyTask (some t) =
      let plain = plain-OnlyTask (cake_tier_idx (get_tier t.packed_info)) in
      let full = ctx-OnlyTask t in ground arith

  pub imperator_enqueue-OnlyTask : OnlyTask p w (imperator_enqueue k c env w p).world
  unfolding imperator_enqueue
  imperator_enqueue-OnlyTask = by-OnlyTask (w.tasks p)

-- ===== src/Enqueue/Marks.antt =====
-- imperator_enqueue and the queues: the one that it inserts into, and the flags.
use scx_imperator.Common.{ℕ, ◌+◌, ◌<◌, ◌≡◌, ◌∙◌, sym, arith, true, Option, some, none, ◌==◌, ==_iff}
use scx_imperator.Intf.{
  cake_tier_idx, cake_tier_interact, cake_tier_frame, cake_tier_bulk, get_tier, llc_dsq_base,
}
use scx_imperator.State.{TaskCtx, Rodata, World, Kernel, inserts_into, Outcome}
use scx_imperator.Enqueue.{
  EnqEnv, enq_llc, llc_mark_nonempty, enqueue_plain, enqueue_ctx, imperator_enqueue, enqueue_by,
}
use scx_imperator.Enqueue.Kick.Quiet.{inserts_into-kick_victim}
use scx_imperator.Enqueue.Laws.{imperator_enqueue-Inserts}

-- The only queue that the handler inserts into is that of the LLC.
module _ (k : Kernel) (c : Rodata) (env : EnqEnv) (w : World) (p : ℕ) where
  OnlyInto : Outcome → Type 0
  OnlyInto o =
      ((dsq : ℕ) → inserts_into dsq o.calls ≡ (llc_dsq_base + enq_llc c env == dsq))
      × ((j : ℕ) → 0 < w.llc_nonempty j → 0 < o.world.llc_nonempty j)
      × (o.world.llc_cpu_mask ≡ w.llc_cpu_mask)

  mark_keeps :
      (w' : World) (llc j : ℕ)
      → 0 < w'.llc_nonempty j
      → 0 < (llc_mark_nonempty llc w').llc_nonempty j
  unfolding llc_mark_nonempty
  mark_keeps w' llc j h = ground arith

  mark_masks : (w' : World) (llc : ℕ) → (llc_mark_nonempty llc w').llc_cpu_mask ≡ w'.llc_cpu_mask
  unfolding llc_mark_nonempty
  mark_masks w' llc = ground arith

  plain-OnlyInto : (tier : ℕ) → OnlyInto (enqueue_plain c env w p tier)
  unfolding OnlyInto enqueue_plain inserts_into
  plain-OnlyInto tier =
      (λ dsq. ground arith, mark_keeps w (enq_llc c env), mark_masks w (enq_llc c env))

  ctx-OnlyInto : (t : TaskCtx) → OnlyInto (enqueue_ctx k c env w p t)
  unfolding OnlyInto enqueue_ctx inserts_into
  ctx-OnlyInto t = (
    λ dsq. rw (inserts_into-kick_victim dsq k w (enq_llc c env) _) (ground arith),
    mark_keeps _ (enq_llc c env),
    mark_masks _ (enq_llc c env),
  )

  by-OnlyInto : (o : Option TaskCtx) → OnlyInto (enqueue_by k c env w p o)
  unfolding enqueue_by
  by-OnlyInto none =
      let t1 = plain-OnlyInto cake_tier_interact in
      let t2 = plain-OnlyInto cake_tier_frame in
      let t3 = plain-OnlyInto cake_tier_bulk in ground arith
  by-OnlyInto (some t) =
      let plain = plain-OnlyInto (cake_tier_idx (get_tier t.packed_info)) in
      let full = ctx-OnlyInto t in ground arith

  pub imperator_enqueue_into :
      (dsq : ℕ)
      → inserts_into dsq (imperator_enqueue k c env w p).calls ≡ true
      → llc_dsq_base + enq_llc c env ≡ dsq
  unfolding imperator_enqueue OnlyInto
  imperator_enqueue_into dsq h =
      (==_iff (llc_dsq_base + enq_llc c env) dsq).0 (sym ((by-OnlyInto (w.tasks p)).0 dsq) ∙ h)

  pub imperator_enqueue_inserts :
      inserts_into (llc_dsq_base + enq_llc c env) (imperator_enqueue k c env w p).calls ≡ true
  unfolding imperator_enqueue OnlyInto
  imperator_enqueue_inserts =
      (by-OnlyInto (w.tasks p)).0 (llc_dsq_base + enq_llc c env) ∙ ground arith

  -- A flag that is set stays set, and that of the queue is set.
  pub imperator_enqueue_marks :
      (j : ℕ)
      → (0 < w.llc_nonempty j → 0 < (imperator_enqueue k c env w p).world.llc_nonempty j)
        × (enq_llc c env ≡ j → 0 < (imperator_enqueue k c env w p).world.llc_nonempty j)
  unfolding imperator_enqueue OnlyInto
  imperator_enqueue_marks j = (
    (by-OnlyInto (w.tasks p)).1 j,
    λ e. let m = (imperator_enqueue-Inserts k c env w p).marked in ground (arith, rw e at m),
  )

  -- No mask of an LLC changes.
  pub imperator_enqueue_masks : (imperator_enqueue k c env w p).world.llc_cpu_mask ≡ w.llc_cpu_mask
  unfolding imperator_enqueue OnlyInto
  imperator_enqueue_masks = (by-OnlyInto (w.tasks p)).2

-- ===== src/Tick/Handler.antt =====
-- The whole tick: the published tier, where the frequency target comes from, and starvation.
use scx_imperator.Common.{
  ℕ, ◌^◌, ◌≤◌, ◌<◌, ◌≡◌, ◌≢◌, ◌∙◌, refl, ap, arith, Bool, true, false, [], ◌∷◌, ◌++◌, ltb, ◌==◌,
  u32, sub_u32, Bool-cases, inl, inr, ◌&&◌, not, sym,
}
use scx_imperator.Intf.{get_tier, unpack_starvation_ns, cake_tier_idx}
use scx_imperator.Intf.Laws.{get_tier-lt}
use scx_imperator.State.{Rodata, Kernel, cpuperf_set}
use scx_imperator.Tick.{
  Env, TickState, Flow, returned, mailbox_dvfs_max, check_due, contended, grow, decay, phase2,
  expired, expire, follow, tick_stamped, tick_ctx, publish_tier, steer, dvfs_max, dvfs, starved,
  preempt_starved, dsq_hint_encode, tier_flags,
}
use scx_imperator.Tick.Mail.{Publishes, publish_tier-Publishes, steer_keeps, steer_lem}
use scx_imperator.Tick.Starvation.{kicks, kicks-steer}

-- What the two labels keep and publish.
pub record Publication (tier : ℕ) (s s' : TickState) : Type 0 where
  pub task : s'.task ≡ s.task
  pub flags : s'.mbox.flags ≡ tier_flags tier
  pub counter : s'.mbox.tick_counter ≡ s.mbox.tick_counter
  pub kicked : kicks s'.calls ≡ kicks s.calls

steer-Publication :
    (cpu tier target : ℕ) (s : TickState)
    → Publication tier s (steer cpu target (publish_tier tier s))
unfolding publish_tier
steer-Publication cpu tier target s =
    let p = publish_tier tier s in
    let kept = steer_keeps cpu target p in
    record { task = kept.0; flags = kept.1; counter = kept.2; kicked = kicks-steer cpu target p }

module _ (k : Kernel) (c : Rodata) (env : Env) (cpu tier : ℕ) where
  pub dvfs-Publication : (s : TickState) → Publication tier s (dvfs c env cpu tier s)
  unfolding dvfs
  dvfs-Publication s = steer-Publication cpu tier _ s

  pub dvfs_max-Publication : (s : TickState) → Publication tier s (dvfs_max k cpu tier s)
  unfolding dvfs_max
  dvfs_max-Publication s = steer-Publication cpu tier _ s

  flags_follow :
      (f : Flow)
      → (f.label ≡ returned → f.state.mbox.flags ≡ tier_flags tier)
      → (follow k c env cpu tier f).mbox.flags ≡ tier_flags tier
  unfolding follow
  flags_follow f h =
      ground (arith, h, (dvfs-Publication f.state).flags, (dvfs_max-Publication f.state).flags)

  phase2_returned :
      (runtime : ℕ) (s : TickState)
      → (phase2 k c env cpu tier runtime s).label ≡ returned
      → (phase2 k c env cpu tier runtime s).state.mbox.flags ≡ tier_flags tier
  unfolding phase2 starved preempt_starved publish_tier
  phase2_returned runtime s h = ground arith

  stamped_flags :
      (s : TickState)
      → get_tier s.task.packed_info ≡ tier
      → (tick_stamped k c env cpu s).mbox.flags ≡ tier_flags tier
  unfolding tick_stamped expire publish_tier
  stamped_flags s e =
      let runtime = sub_u32 (u32 env.now) s.task.last_run_at in
      rw e (
        ground
          (arith, flags_follow (phase2 k c env cpu tier runtime s) (phase2_returned runtime s)))

-- The check is due, finds contention, and the task has run for longer than its tier's threshold.
abbrev pub starves : Rodata → Env → TickState → Bool
starves c env s =
    check_due s.mbox.tick_counter
    && (contended env
        && ltb (unpack_starvation_ns (c.tier_configs (cake_tier_idx (get_tier s.task.packed_info))))
            (sub_u32 (u32 env.now) s.task.last_run_at))

-- The task is stamped, and its slice lasts or nothing waits behind it.
abbrev pub runs_on : Kernel → Rodata → Env → ℕ → TickState → Bool
runs_on k c env cpu s =
    not (s.task.last_run_at == 0)
    && not (expired k c env cpu (sub_u32 (u32 env.now) s.task.last_run_at) s)

module _ (k : Kernel) (c : Rodata) (env : Env) (cpu : ℕ) (s : TickState) where
  abbrev tier_now : ℕ
  tier_now = get_tier s.task.packed_info

  -- Every tick of a stamped task leaves a valid mailbox with the task's tier, on each of its ways
  -- out.
  pub tick-Publishes :
      s.task.last_run_at ≢ 0
      → s.task.packed_info < 2 ^ 32
      → Publishes (tick_ctx k c env cpu s).mbox (get_tier s.task.packed_info)
  unfolding tick_ctx publish_tier
  tick-Publishes ran fits =
      let flags : (tick_ctx k c env cpu s).mbox.flags ≡ tier_flags tier_now =
        ground (arith, stamped_flags k c env cpu tier_now s refl) in
      let p = publish_tier-Publishes tier_now s (get_tier-lt s.task.packed_info fits) in
      record {
        is_valid = rw flags p.is_valid;
        is_tier = rw flags p.is_tier;
        fits = rw flags p.fits;
      }

  unstarved_phase2 :
      starves c env s ≡ false
      → (f : TickState) × (phase2 k c env cpu tier_now (sub_u32 (u32 env.now) s.task.last_run_at) s
          ≡ record { state = f; label = mailbox_dvfs_max })
        × (f.mbox.dsq_hint ≡ s.mbox.dsq_hint)
        × (f.task ≡ s.task)
        × (f.calls ≡ s.calls)
  unfolding phase2 decay grow
  unstarved_phase2 h = elim (Bool-cases (check_due s.mbox.tick_counter && contended env)) [
    | inl both ↦ (decay s, ground arith, refl, refl, refl)
    | inr other ↦ (grow s, ground arith, ground arith, ground arith, ground arith)
  ]

  -- A tick that neither preempts nor spares a starving task steers to the maximum frequency, also
  -- under contention and on a hybrid system, whatever the tier and the capacity of the CPU. It makes
  -- the call exactly when the hint was another one before.
  pub tick_full_frequency :
      runs_on k c env cpu s ≡ true
      → starves c env s ≡ false
      → k.cpuperf_one ≤ 1024
      → let s' = tick_ctx k c env cpu s in
        (s'.mbox.dsq_hint ≡ dsq_hint_encode k.cpuperf_one)
        × (s.mbox.dsq_hint ≢ dsq_hint_encode k.cpuperf_one
            → s'.calls ≡ s.calls ++ cpuperf_set cpu k.cpuperf_one ∷ [])
        × (s.mbox.dsq_hint ≡ dsq_hint_encode k.cpuperf_one → s'.calls ≡ s.calls)
  unfolding tick_ctx tick_stamped follow dvfs_max publish_tier
  tick_full_frequency live calm one =
      let (f, e, hint, _, calls) = unstarved_phase2 calm in
      let steered = steer_lem cpu k.cpuperf_one (publish_tier tier_now f) one in
      let is : tick_ctx k c env cpu s ≡ steer cpu k.cpuperf_one (publish_tier tier_now f) =
        ground (arith, e) in
      rw is (
        steered.0,
        λ h.
            steered.1 (λ q. h (sym hint ∙ q))
            ∙ ap (λ cs. cs ++ cpuperf_set cpu k.cpuperf_one ∷ []) calls,
        λ h. steered.2 (hint ∙ h) ∙ calls,
      )

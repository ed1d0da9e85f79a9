-- ===== src/Tick/Saturation.antt =====
-- The tick counter at its ceiling of 255, which no mask divides.
use scx_imperator.Common.{
  ℕ, suc, ◌+◌, ◌≤◌, ◌<◌, ◌≡◌, ◌≢◌, ◌⊎◌, ◌∙◌, ap, arith, true, false, List, [], ◌∷◌, ◌==◌, u32,
  sub_u32, Bool-cases, inl, inr,
}
use scx_imperator.Intf.{get_tier}
use scx_imperator.State.{TaskCtx, Mailbox, Stats, Rodata, Kernel}
use scx_imperator.Tick.{
  Env, TickState, mailbox_dvfs_max, check_due, contended, grow, phase2, expired, expire, follow,
  tick_stamped, tick_ctx, publish_tier, dvfs_max,
}
use scx_imperator.Tick.Mail.{steer_keeps}
use scx_imperator.Tick.Starvation.{check_due-arith, kicks, kicks-steer}

dvfs_max_keeps :
    (k : Kernel) (cpu tier : ℕ) (s : TickState)
    → let s' = dvfs_max k cpu tier s in
      (s'.task ≡ s.task)
      × (s'.mbox.tick_counter ≡ s.mbox.tick_counter)
      × (kicks s'.calls ≡ kicks s.calls)
unfolding dvfs_max publish_tier
dvfs_max_keeps k cpu tier s = ground (
  arith,
  steer_keeps cpu k.cpuperf_one (publish_tier tier s),
  kicks-steer cpu k.cpuperf_one (publish_tier tier s),
)

grow_keeps :
    (s : TickState)
    → ((grow s).task ≡ s.task)
      × ((grow s).calls ≡ s.calls)
      × (s.mbox.tick_counter ≡ 255 → (grow s).mbox.tick_counter ≡ 255)
      × (s.mbox.tick_counter < 255 → (grow s).mbox.tick_counter ≡ s.mbox.tick_counter + 1)
unfolding grow
grow_keeps s = ground arith

-- A phase 2 that does not look, or sees no contention, only grows the counter.
phase2_quiet :
    (k : Kernel) (c : Rodata) (env : Env) (cpu tier runtime : ℕ) (s : TickState)
    → (check_due s.mbox.tick_counter ≡ false) ⊎ (contended env ≡ false)
    → phase2 k c env cpu tier runtime s ≡ record { state = grow s; label = mailbox_dvfs_max }
unfolding phase2
phase2_quiet k c env cpu tier runtime s h = ground arith

module _ (k : Kernel) (c : Rodata) (env : Env) (cpu : ℕ) (s : TickState) where
  abbrev runtime : ℕ
  runtime = sub_u32 (u32 env.now) s.task.last_run_at

  abbrev grown : TickState
  grown = dvfs_max k cpu (get_tier s.task.packed_info) (grow s)

  tick_quiet :
      s.task.last_run_at ≢ 0
      → expired k c env cpu runtime s ≡ false
      → (check_due s.mbox.tick_counter ≡ false) ⊎ (contended env ≡ false)
      → tick_ctx k c env cpu s ≡ grown
  unfolding tick_ctx tick_stamped follow
  tick_quiet ran live quiet =
      ground (arith, phase2_quiet k c env cpu (get_tier s.task.packed_info) runtime s quiet)

  saturated_not_due : s.mbox.tick_counter ≡ 255 → check_due s.mbox.tick_counter ≡ false
  saturated_not_due h = ground (arith, check_due-arith s.mbox.tick_counter)

  tick_unstamped : s.task.last_run_at ≡ 0 → (tick_ctx k c env cpu s).mbox ≡ s.mbox
  unfolding tick_ctx
  tick_unstamped h = ground arith

  tick_expired :
      s.task.last_run_at ≢ 0
      → expired k c env cpu runtime s ≡ true
      → (tick_ctx k c env cpu s).mbox.tick_counter ≡ s.mbox.tick_counter
  unfolding tick_ctx tick_stamped expire publish_tier
  tick_expired ran over = ground arith

  grown_counter :
      (grown.mbox.tick_counter ≡ (grow s).mbox.tick_counter)
      × (kicks grown.calls ≡ kicks s.calls)
      × (grown.task ≡ s.task)
  grown_counter =
      let kept = dvfs_max_keeps k cpu (get_tier s.task.packed_info) (grow s) in
      let before = grow_keeps s in (kept.1, kept.2 ∙ ap kicks before.1, kept.0 ∙ before.0)

  -- At the ceiling a tick leaves the counter there, whatever it finds.
  tick_saturated : s.mbox.tick_counter ≡ 255 → (tick_ctx k c env cpu s).mbox.tick_counter ≡ 255
  tick_saturated h = elim (Bool-cases (s.task.last_run_at == 0)) [
    | inl new ↦ ground (arith, tick_unstamped)
    | inr ran ↦ elim (Bool-cases (expired k c env cpu runtime s)) [
      | inl over ↦ ground (arith, tick_expired)
      | inr live ↦
          rw (tick_quiet (ground arith) live (inl (saturated_not_due h)))
            (grown_counter.0 ∙ (grow_keeps s).2 h)
    ]
  ]

  -- Nor does it preempt a task for starvation.
  tick_saturated_spares :
      s.mbox.tick_counter ≡ 255
      → s.task.last_run_at ≢ 0
      → expired k c env cpu runtime s ≡ false
      → kicks (tick_ctx k c env cpu s).calls ≡ kicks s.calls
  tick_saturated_spares h ran live =
      rw (tick_quiet ran live (inl (saturated_not_due h))) grown_counter.1

  tick_grows :
      s.mbox.tick_counter < 255
      → s.task.last_run_at ≢ 0
      → expired k c env cpu runtime s ≡ false
      → contended env ≡ false
      → (tick_ctx k c env cpu s).mbox.tick_counter ≡ s.mbox.tick_counter + 1
  tick_grows h ran live calm =
      rw (tick_quiet ran live (inr calm)) (grown_counter.0 ∙ (grow_keeps s).3 h)

at_ceiling : (n : ℕ) → n ≤ 255 → (n ≡ 255) ⊎ (n < 255)
at_ceiling n h = grind arith

-- One tick of a CPU: what the kernel answers, and the task that is running there by then.
pub record Turn : Type 0 where
  pub env : Env
  pub task : TaskCtx
  pub stats : Stats

-- Ticks of one CPU, which have only its mailbox in common.
module _ (k : Kernel) (c : Rodata) (cpu : ℕ) where
  abbrev pub at_turn : Mailbox → Turn → TickState
  at_turn m x = record { task = x.task; mbox = m; stats = x.stats; calls = [] }

  pub tick_of : Mailbox → Turn → TickState
  tick_of m x = tick_ctx k c x.env cpu (at_turn m x)

  pub mailbox_after : Mailbox → List Turn → Mailbox
  mailbox_after m [] = m
  mailbox_after m (x ∷ xs) = mailbox_after (tick_of m x).mbox xs

  -- A stamped task within its slice, or with nothing waiting behind it.
  abbrev pub IsLive : Turn → Type 0
  IsLive x =
      (x.task.last_run_at ≢ 0)
      × ((m : Mailbox)
          → expired k c x.env cpu (sub_u32 (u32 x.env.now) x.task.last_run_at) (at_turn m x)
            ≡ false)

  -- All of the ticks are such, and see no contention.
  abbrev pub AllCalm : List Turn → Type 0
  AllCalm [] = Unit
  AllCalm (x ∷ xs) = IsLive x × (contended x.env ≡ false) × AllCalm xs

  saturated_stays :
      (m : Mailbox) (xs : List Turn)
      → m.tick_counter ≡ 255
      → (mailbox_after m xs).tick_counter ≡ 255
  unfolding mailbox_after tick_of
  saturated_stays m [] h = h
  saturated_stays m (x ∷ xs) h =
      saturated_stays (tick_of m x).mbox xs (tick_saturated k c x.env cpu (at_turn m x) h)

  abbrev pub turns : List Turn → ℕ
  turns [] = 0
  turns (x ∷ xs) = suc (turns xs)

  calm_saturates :
      (m : Mailbox) (xs : List Turn)
      → m.tick_counter ≤ 255
      → 255 ≤ m.tick_counter + turns xs
      → AllCalm xs
      → (mailbox_after m xs).tick_counter ≡ 255
  unfolding mailbox_after tick_of
  calm_saturates m [] fits enough calm = ground arith
  calm_saturates m (x ∷ xs) fits enough (live, calm, rest) = elim (at_ceiling m.tick_counter fits) [
    | inl full ↦
        saturated_stays (tick_of m x).mbox xs (tick_saturated k c x.env cpu (at_turn m x) full)
    | inr room ↦
        let e : (tick_of m x).mbox.tick_counter ≡ m.tick_counter + 1 =
          tick_grows k c x.env cpu (at_turn m x) room live.0 (live.1 m) calm in
        calm_saturates (tick_of m x).mbox xs (omega arith) (omega arith) rest
  ]

  -- The starvation check is lost for good: after 255 ticks without contention on a CPU, and any
  -- ticks after those, no tick of a live task preempts it, contended or starved as it may be.
  pub starvation_check_lost :
      (m : Mailbox) (xs ys : List Turn) (y : Turn)
      → m.tick_counter ≤ 255
      → 255 ≤ turns xs
      → AllCalm xs
      → IsLive y
      → kicks (tick_of (mailbox_after (mailbox_after m xs) ys) y).calls ≡ 0
  unfolding tick_of kicks
  starvation_check_lost m xs ys y fits enough calm live =
      let after = mailbox_after (mailbox_after m xs) ys in
      tick_saturated_spares k c y.env cpu (at_turn after y)
        (saturated_stays (mailbox_after m xs) ys (calm_saturates m xs fits (omega arith) calm))
        live.0 (live.1 after)

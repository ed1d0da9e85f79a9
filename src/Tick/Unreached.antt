-- ===== src/Tick/Unreached.antt =====
-- The tick of a task whose slice is no longer than the starvation threshold of its tier.
use scx_imperator.Common.{
  ℕ, ◌≤◌, ◌<◌, ◌≡◌, ◌≢◌, ◌⊎◌, arith, true, false, [], ◌∷◌, ◌++◌, ltb, ◌==◌, u32, sub_u32,
  Bool-cases, inl, inr, ◌+◌, ◌&&◌,
}
use scx_imperator.Intf.{get_tier, unpack_starvation_ns, cake_tier_idx, llc_dsq_base, llc_idx}
use scx_imperator.State.{TaskCtx, Rodata, Kernel, kick_cpu}
use scx_imperator.Tick.{
  Env, TickState, Flow, contended, grow, decay, phase2, expired, expire, follow, tick_stamped,
  tick_ctx, publish_tier, steer, dvfs_max, dvfs,
}
use scx_imperator.Tick.Handler.{starves}

-- Nothing of what only a preemption or a skip for starvation changes is changed.
pub record Spares (s s' : TickState) : Type 0 where
  pub skips : s'.task.lock_skip_count ≡ s.task.lock_skip_count
  pub stats : s'.stats ≡ s.stats

module _ (k : Kernel) (c : Rodata) (env : Env) (cpu tier : ℕ) where
  follow-Spares :
      (s : TickState) (f : Flow)
      → (f.state.task ≡ s.task) × (f.state.stats ≡ s.stats)
      → Spares s (follow k c env cpu tier f)
  unfolding follow dvfs dvfs_max steer publish_tier
  follow-Spares s f h = record { skips = ground arith; stats = ground arith }

  calm_phase2 :
      (runtime : ℕ) (s : TickState)
      → (contended env && ltb (unpack_starvation_ns (c.tier_configs (cake_tier_idx tier))) runtime)
        ≡ false
      → let f = phase2 k c env cpu tier runtime s in
        (f.state.task ≡ s.task) × (f.state.stats ≡ s.stats)
  unfolding phase2 grow decay
  calm_phase2 runtime s h = ground arith

-- The slice of the task is no longer than the starvation threshold of its tier.
abbrev pub IsWithin : Rodata → TaskCtx → Type 0
IsWithin c t =
    t.next_slice ≤ unpack_starvation_ns (c.tier_configs (cake_tier_idx (get_tier t.packed_info)))

-- A run queue of more than one task has a task that waits in the queue of the LLC or in the local
-- queue of the CPU.
abbrev pub WaitsWhere : Kernel → Rodata → Env → ℕ → Type 0
WaitsWhere k c env cpu =
    contended env ≡ true
    → (0 < env.nr_queued (llc_dsq_base + llc_idx (c.cpu_llc_id cpu)))
      ⊎ (0 < env.nr_queued k.dsq_local)

module _ (k : Kernel) (c : Rodata) (env : Env) (cpu : ℕ) (s : TickState)
    (within : IsWithin c s.task) (waits : WaitsWhere k c env cpu) where
  abbrev runtime : ℕ
  runtime = sub_u32 (u32 env.now) s.task.last_run_at

  abbrev tier : ℕ
  tier = get_tier s.task.packed_info

  starved-expired :
      (contended env && ltb (unpack_starvation_ns (c.tier_configs (cake_tier_idx tier))) runtime)
        ≡ true
      → expired k c env cpu runtime s ≡ true
  unfolding expired
  starved-expired h = ground (arith, waits, within)

  stamped-Spares : Spares s (tick_stamped k c env cpu s)
  unfolding tick_stamped expire publish_tier
  stamped-Spares = elim (Bool-cases (expired k c env cpu runtime s)) [
    | inl over ↦ record { skips = ground arith; stats = ground arith }
    | inr live ↦
        let spared =
          follow-Spares k c env cpu tier s (phase2 k c env cpu tier runtime s)
            (calm_phase2 k c env cpu tier runtime s (ground (arith, starved-expired))) in
        rw live spared
  ]

  -- A tick of a task whose slice is no longer than the starvation threshold of its tier, on a CPU
  -- whose run queue has more than one task only while one waits in the queue of its LLC or in its
  -- local queue: the tick changes neither the count of skips of the task nor a counter, so that it
  -- neither spares a lock holder nor preempts for starvation. If the task is stamped, the check is
  -- due, sees contention, and the task has run for longer than the threshold, the tick kicks the CPU
  -- once for the used up slice and makes no other call, also if the task is a lock holder with skips
  -- left.
  pub tick_starvation_unreached :
      Spares s (tick_ctx k c env cpu s)
      × (s.task.last_run_at ≢ 0
          → starves c env s ≡ true
          → (tick_ctx k c env cpu s).calls ≡ s.calls ++ kick_cpu cpu k.kick_preempt ∷ [])
  unfolding tick_ctx tick_stamped expire publish_tier
  tick_starvation_unreached = (
    elim (Bool-cases (s.task.last_run_at == 0)) [
      | inl new ↦ record { skips = ground arith; stats = ground arith }
      | inr ran ↦ record {
        skips = ground (arith, stamped-Spares.skips);
        stats = ground (arith, stamped-Spares.stats);
      }
    ],
    λ ran h. ground (arith, starved-expired),
  )

-- ===== src/Tests/Dispatch.antt =====
-- imperator_dispatch and imperator_init of src/bpf/imperator.bpf.c at concrete inputs.
use scx_imperator.Common.{
  ℕ, ◌+◌, ◌≡◌, ◌∙◌, [], ◌∷◌, ◌==◌, ltb, if◌then◌else◌, arith, refl, ℤ, pos, negsuc, update,
}
use scx_imperator.Intf.{cpu_idx, llc_idx, llc_dsq_base}
use scx_imperator.State.{World, dsq_move_to_local}
use scx_imperator.Compat.Scan.Clear.{bits, listed}
use scx_imperator.Init.{imperator_init}
use scx_imperator.Init.Laws.{made, imperator_init_error}
use scx_imperator.Enqueue.{llc_mark_nonempty}
use scx_imperator.Dispatch.{DispatchEnv, drain, imperator_dispatch}
use scx_imperator.Dispatch.Spec.{try_all, best, better_of, steal_order, llc_order, start}
use scx_imperator.Dispatch.Refine.{drain_tries}
use scx_imperator.Dispatch.Tried.{tried, emptied, moves_of, delivers, imperator_dispatch-tried}
use scx_imperator.Tests.Data.{two, world}

-- Tasks wait in the second LLC's queue; CPU 2 of the first LLC looks for work.
abbrev idle_cpu : DispatchEnv
idle_cpu = record {
  cpu = 2;
  moves = λ dsq. dsq == 201;
  nr_queued = λ dsq. if dsq == 201 then 3 else 0;
}

abbrev marked_world : World
marked_world = record world { llc_nonempty = λ llc. if ltb llc 2 then 1 else 0 }

imperator_dispatch-tried_example :
    ((imperator_dispatch two idle_cpu marked_world).calls
      ≡ moves_of (tried idle_cpu (llc_order two 2 marked_world)))
    × ((j : ℕ)
        → (imperator_dispatch two idle_cpu marked_world).world.llc_nonempty j ≡ (
            if emptied idle_cpu (tried idle_cpu (llc_order two 2 marked_world)) j
            then 0
            else marked_world.llc_nonempty j))
imperator_dispatch-tried_example =
    imperator_dispatch-tried two idle_cpu marked_world (omega arith) (ground arith)

-- The own queue is asked first, then the other; only the own flag is cleared.
dispatch_calls :
    (imperator_dispatch two idle_cpu marked_world).calls
    ≡ dsq_move_to_local 200 ∷ dsq_move_to_local 201 ∷ []
unfolding moves_of tried delivers llc_order steal_order best better_of listed cpu_idx llc_idx
dispatch_calls =
    (imperator_dispatch-tried two idle_cpu marked_world (omega arith) (ground arith)).0 ∙ refl

drain_tries_example :
    drain idle_cpu 8 6 (start marked_world) ≡ try_all idle_cpu (bits 32 0 6) (start marked_world)
unfolding bits
drain_tries_example = drain_tries idle_cpu 8 6 (start marked_world) (omega arith) (omega arith)

-- Between the look at a queue that is empty, with its flag still set, and the clearing of the flag, an
-- insertion leaves the flag as it is; the clearing then hides the task from the other LLCs.
flag_lost : update (llc_mark_nonempty 1 marked_world).llc_nonempty (llc_idx 1) 0 1 ≡ 0
unfolding llc_mark_nonempty llc_idx
flag_lost = refl

-- The second queue cannot be created.
abbrev no_memory : ℕ → ℤ
no_memory dsq = if dsq == 201 then negsuc 11 else pos 0

imperator_init_error_example :
    let s = imperator_init two no_memory world in
    (s.created.ret ≡ no_memory (llc_dsq_base + 1))
    × (s.created.calls ≡ made 0 2)
    × (s.world ≡ (imperator_init two (λ _. pos 0) world).world)
imperator_init_error_example =
    imperator_init_error two no_memory world 1 (omega arith)
      (λ m small. let e : m ≡ 0 = omega arith in rw e refl) refl

-- ===== src/System/Race.antt =====
-- imperator_dispatch on one CPU and imperator_enqueue on another, between the look at the number of
-- waiting tasks and the store that clears the flag.
use scx_imperator.Common.{
  ℕ, ◌+◌, ◌≤◌, ◌<◌, ◌≡◌, ◌≢◌, sym, arith, Bool, true, false, not, ◌&&◌, List, [], ◌∷◌, All, All-map,
  Option, none, some, Bool-cases, inl, inr, leb, ◌==◌, update,
}
use scx_imperator.Intf.{cpu_idx, llc_idx, llc_dsq_base}
use scx_imperator.Intf.Fused.{llc_idx-arith}
use scx_imperator.State.{Rodata, World, Kernel, Call, dsq_move_to_local, inserts_into}
use scx_imperator.Compat.Scan.Clear.{listed, listed_holds}
use scx_imperator.Enqueue.{EnqEnv, enq_llc, imperator_enqueue}
use scx_imperator.Enqueue.Marks.{imperator_enqueue_inserts}
use scx_imperator.Dispatch.{DispatchEnv, attempt, search, imperator_dispatch, is_marked}
use scx_imperator.Dispatch.Spec.{best, steal_order, llc_order, start}
use scx_imperator.Dispatch.Scan.{Of, best-listed}
use scx_imperator.Dispatch.Tried.{delivers, tried, moves_of, imperator_dispatch-tried}
use scx_imperator.Dispatch.Work.{imperator_dispatch_moves}

-- The store of the other CPU, which has seen the queue empty before.
pub clear_flag_late : ℕ → World → World
clear_flag_late llc w = record w { llc_nonempty = update w.llc_nonempty (llc_idx llc) 0 }

clear_flag_late_lem : (llc : ℕ) (w : World) → llc < 8 → (clear_flag_late llc w).llc_nonempty llc ≡ 0
unfolding clear_flag_late
clear_flag_late_lem llc w small = ground (arith, llc_idx-arith llc)

tried-All :
    (env : DispatchEnv) (P : ℕ → Type 0) (order : List ℕ) → All P order → All P (tried env order)
unfolding tried
tried-All env P [] all = tt
tried-All env P (llc ∷ llcs) all = elim (Bool-cases (delivers env llc)) [
  | inl e ↦ rw e (all.0, tt)
  | inr e ↦ rw e (all.0, tried-All env P llcs all.1)
]

-- No call asks for the queue.
unfoldable pub Unasked : ℕ → List Call → Type 0
Unasked llc calls = All (λ (call : Call). call ≢ dsq_move_to_local (llc_dsq_base + llc)) calls

moves_of-Unasked : (llc : ℕ) (llcs : List ℕ) → All (λ j. j ≢ llc) llcs → Unasked llc (moves_of llcs)
unfolding moves_of Unasked
moves_of-Unasked llc [] all = tt
moves_of-Unasked llc (j ∷ llcs) all =
    (λ e. all.0 (ground (arith, e)), moves_of-Unasked llc llcs all.1)

-- Only marked LLCs are stolen from.
steal_order_marked :
    (marked : ℕ → Bool) (cost : ℕ → ℕ) (n : ℕ) (o : Option ℕ)
    → Of marked cost (λ j. (marked j ≡ true) × (j < 0 + n)) o
    → All (λ j. marked j ≡ true) (steal_order marked cost n o)
unfolding steal_order Of
steal_order_marked marked cost n none h =
    All-map (λ j at_j. at_j.0) (listed marked n 0) (listed_holds marked n 0)
steal_order_marked marked cost n (some x) h = (
  h.0.0,
  All-map (λ j at_j. let both = at_j.0 in ground arith) (listed (λ j. marked j && not (x == j)) n 0)
      (listed_holds (λ j. marked j && not (x == j)) n 0),
)

-- A queue of another LLC that is not marked is not in the order.
llc_order_unmarked :
    (c : Rodata) (cpu llc : ℕ) (w : World)
    → c.cpu_llc_id (cpu_idx cpu) ≢ llc
    → w.llc_nonempty llc ≡ 0
    → All (λ j. j ≢ llc) (llc_order c cpu w)
unfolding llc_order
llc_order_unmarked c cpu llc w other clear =
    let my_llc = c.cpu_llc_id (cpu_idx cpu) in
    let marked = is_marked my_llc w.llc_nonempty in
    let cost : ℕ → ℕ = λ i. w.llc_etd_cost (llc_idx my_llc) (llc_idx i) in
    let found = best cost (listed marked c.nr_llcs 0) in
    (
      other,
      elim (Bool-cases (leb c.nr_llcs 1)) [
        | inl one ↦ rw one tt
        | inr more ↦ rw more (
            All-map (λ j m e. unmarked j m e) (steal_order marked cost c.nr_llcs found)
              (steal_order_marked marked cost c.nr_llcs found
                (best-listed marked cost c.nr_llcs 0)))
      ],
    )
  where
    unmarked : (j : ℕ) → is_marked (c.cpu_llc_id (cpu_idx cpu)) w.llc_nonempty j ≡ true → j ≢ llc
    unmarked j m e = let m' = rw e at m in ground (arith, m', clear)

-- The store is the one that a dispatch makes when a queue gives no task and has none waiting.
pub attempt-clear_flag_late :
    (env : DispatchEnv) (llc : ℕ) (w : World)
    → delivers env llc ≡ false
    → env.nr_queued (llc_dsq_base + llc) ≡ 0
    → (attempt env llc (start w)).nonempty ≡ (clear_flag_late llc w).llc_nonempty
unfolding attempt delivers start clear_flag_late
attempt-clear_flag_late env llc w stuck none_wait = ground (arith, stuck, none_wait)

-- With at most eight LLCs: if a task is queued for one of the configured LLCs, and another CPU
-- then makes the store that clears the flag of that LLC, the task is in the queue, but a dispatch
-- on a CPU of any other of the eight does not ask for that queue. A dispatch on a CPU of the LLC
-- itself gets a task, if one can be moved to it from there.
pub imperator_dispatch_race :
    (k : Kernel) (c : Rodata) (env : EnqEnv) (seek own : DispatchEnv) (w : World) (p llc : ℕ)
    → c.nr_llcs ≤ 8
    → llc < c.nr_llcs
    → enq_llc c env ≡ llc
    → c.cpu_llc_id (cpu_idx seek.cpu) < 8
    → c.cpu_llc_id (cpu_idx seek.cpu) ≢ llc
    → c.cpu_llc_id (cpu_idx own.cpu) ≡ llc
    → delivers own llc ≡ true
    → let o = imperator_enqueue k c env w p in
      let w' = clear_flag_late llc o.world in
      (inserts_into (llc_dsq_base + llc) o.calls ≡ true)
      × Unasked llc (imperator_dispatch c seek w').calls
      × ((search c own w').moved ≡ true)
imperator_dispatch_race k c env seek own w p llc few small into range other same can =
    let o = imperator_enqueue k c env w p in
    let w' = clear_flag_late llc o.world in
    let order = llc_order c seek.cpu w' in
    let gone = clear_flag_late_lem llc o.world (omega arith) in
    (
      rw into at (imperator_enqueue_inserts k c env w p),
      rw (imperator_dispatch-tried c seek w' few range).0 (
          moves_of-Unasked llc (tried seek order) (
            tried-All seek (λ j. j ≢ llc) order (llc_order_unmarked c seek.cpu llc w' other gone))),
      imperator_dispatch_moves c own w' llc few (omega (arith, same, small)) small (inl (sym same))
          can,
    )

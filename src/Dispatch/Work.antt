-- ===== src/Dispatch/Work.antt =====
-- imperator_dispatch, the work that a CPU could take, and the flags of queues with tasks.
use scx_imperator.Common.{
  ℕ, ◌+◌, ◌≤◌, ◌<◌, ◌≡◌, ◌∙◌, ◌⊎◌, refl, sym, arith, Bool, true, false, not, ◌&&◌, List, [], ◌∷◌,
  All, All-map, Option, none, some, Bool-cases, inl, inr, leb, ◌==◌, ==_iff,
}
use scx_imperator.Intf.{cpu_idx, llc_idx, llc_dsq_base}
use scx_imperator.State.{Rodata, World}
use scx_imperator.Compat.Scan.Clear.{listed, listed-All, listed_holds}
use scx_imperator.Dispatch.{DispatchEnv, search, imperator_dispatch, is_marked}
use scx_imperator.Dispatch.Spec.{best, steal_order, llc_order, start}
use scx_imperator.Dispatch.Scan.{Of, best-listed}
use scx_imperator.Dispatch.Order.{search_tries, llc_idx-small}
use scx_imperator.Dispatch.Tried.{
  delivers, tried, any_delivers, emptied, try_all-moved, imperator_dispatch-tried,
}

any_delivers-All :
    (env : DispatchEnv) (llcs : List ℕ)
    → any_delivers env llcs ≡ false
    → All (λ llc. delivers env llc ≡ false) llcs
unfolding any_delivers
any_delivers-All env [] h = tt
any_delivers-All env (llc ∷ llcs) h = elim (Bool-cases (delivers env llc)) [
  | inl e ↦ let bad = rw e at h in cc
  | inr e ↦ (e, any_delivers-All env llcs (rw e at h))
]

-- Every marked LLC is in the order.
steal_order-All :
    (marked : ℕ → Bool) (cost : ℕ → ℕ) (n : ℕ) (o : Option ℕ) (P : ℕ → Type 0)
    → All P (steal_order marked cost n o)
    → (i : ℕ) → i < n
    → marked i ≡ true
    → P i
unfolding steal_order
steal_order-All marked cost n none P all i lt h =
    listed-All marked P n 0 all i (omega arith) (omega arith) h
steal_order-All marked cost n (some x) P all i lt h = elim (Bool-cases (x == i)) [
  | inl e ↦ let e' : x ≡ i = (==_iff x i).0 e in rw e' at all.0
  | inr e ↦
      listed-All (λ j. marked j && not (x == j)) P n 0 all.1 i (omega arith) (omega arith)
        (rw (h, e) refl)
]

-- Nothing else is.
steal_order_holds :
    (marked : ℕ → Bool) (cost : ℕ → ℕ) (n : ℕ) (o : Option ℕ)
    → Of marked cost (λ j. (marked j ≡ true) × (j < 0 + n)) o
    → All (λ j. j < n) (steal_order marked cost n o)
unfolding steal_order Of
steal_order_holds marked cost n none h =
    All-map (λ j at_j. omega (arith, at_j.1)) (listed marked n 0) (listed_holds marked n 0)
steal_order_holds marked cost n (some x) h = (
  omega (arith, h.0.1),
  All-map (λ j at_j. omega (arith, at_j.1)) (listed (λ j. marked j && not (x == j)) n 0)
      (listed_holds (λ j. marked j && not (x == j)) n 0),
)

llc_order_holds :
    (c : Rodata) (cpu : ℕ) (w : World)
    → c.nr_llcs ≤ 8
    → c.cpu_llc_id (cpu_idx cpu) < 8
    → All (λ llc. llc < 8) (llc_order c cpu w)
unfolding llc_order
llc_order_holds c cpu w few small =
    let my_llc = c.cpu_llc_id (cpu_idx cpu) in
    let marked = is_marked my_llc w.llc_nonempty in
    let cost : ℕ → ℕ = λ i. w.llc_etd_cost (llc_idx my_llc) (llc_idx i) in
    let found = best cost (listed marked c.nr_llcs 0) in
    (
      small,
      elim (Bool-cases (leb c.nr_llcs 1)) [
        | inl one ↦ rw one tt
        | inr more ↦ rw more (
            All-map (λ j lt. omega arith) (steal_order marked cost c.nr_llcs found)
              (steal_order_holds marked cost c.nr_llcs found (best-listed marked cost c.nr_llcs 0)))
      ],
    )

-- The own queue is tried, and each that is marked.
llc_order-All :
    (c : Rodata) (cpu : ℕ) (w : World) (P : ℕ → Type 0) (i : ℕ)
    → All P (llc_order c cpu w)
    → c.cpu_llc_id (cpu_idx cpu) < c.nr_llcs
    → i < c.nr_llcs
    → (i ≡ c.cpu_llc_id (cpu_idx cpu)) ⊎ (0 < w.llc_nonempty i)
    → P i
unfolding llc_order
llc_order-All c cpu w P i all small lt reason =
    let my_llc = c.cpu_llc_id (cpu_idx cpu) in
    let cost : ℕ → ℕ = λ i. w.llc_etd_cost (llc_idx my_llc) (llc_idx i) in
    let marked = is_marked my_llc w.llc_nonempty in
    elim (Bool-cases (i == my_llc)) [
      | inl e ↦ let e' : i ≡ my_llc = (==_iff i my_llc).0 e in rw e' all.0
      | inr other ↦
          let several : leb c.nr_llcs 1 ≡ false = ground arith in
          let more = rw several at all.1 in
          let set : 0 < w.llc_nonempty i = elim reason [
            | inl e ↦ absurd (ground arith)
            | inr set ↦ set
          ] in
          steal_order-All marked cost c.nr_llcs (best cost (listed marked c.nr_llcs 0)) P more i lt
            (ground arith)
    ]

-- A queue that has tasks waiting is not seen as empty.
emptied-waiting :
    (env : DispatchEnv) (llcs : List ℕ) (i : ℕ)
    → 0 < env.nr_queued (llc_dsq_base + i)
    → All (λ llc. llc < 8) llcs
    → emptied env (tried env llcs) i ≡ false
unfolding emptied tried
emptied-waiting env [] i waiting all = refl
emptied-waiting env (llc ∷ llcs) i waiting all =
    let small = llc_idx-small llc all.0 in
    let rest = emptied-waiting env llcs i waiting all.1 in
    elim (Bool-cases (delivers env llc)) [
      | inl e ↦ rw e refl
      | inr e ↦ elim (Bool-cases (llc == i)) [
        | inl same ↦
            let same' : llc ≡ i = (==_iff llc i).0 same in
            let some_wait : (env.nr_queued (llc_dsq_base + llc) == 0) ≡ false =
              rw same' (ground (arith, waiting)) in
            rw (e, some_wait, rest) refl
        | inr other ↦ rw (e, small, other) (ground (arith, rest))
      ]
    ]

-- A CPU does not go idle beside work that it can take: if its own queue, or that of another LLC whose
-- flag is set, has a task that can be moved to it, then one is moved.
pub imperator_dispatch_moves :
    (c : Rodata) (env : DispatchEnv) (w : World) (i : ℕ)
    → c.nr_llcs ≤ 8
    → c.cpu_llc_id (cpu_idx env.cpu) < c.nr_llcs
    → i < c.nr_llcs
    → (i ≡ c.cpu_llc_id (cpu_idx env.cpu)) ⊎ (0 < w.llc_nonempty i)
    → delivers env i ≡ true
    → (search c env w).moved ≡ true
unfolding start
imperator_dispatch_moves c env w i few small lt reason can =
    elim (Bool-cases (search c env w).moved) [
      | inl found_one ↦ found_one
      | inr stuck ↦
          let order = llc_order c env.cpu w in
          let tries = search_tries c env w few (omega arith) in
          let found = rw tries at stuck in
          let none_can = sym (try_all-moved env order (start w) refl) ∙ found in
          let bad =
            llc_order-All c env.cpu w (λ llc. delivers env llc ≡ false) i
              (any_delivers-All env order none_can) small lt reason in
          cc
    ]

-- The flag of a queue in which tasks are waiting stays as it was.
pub imperator_dispatch_keeps :
    (c : Rodata) (env : DispatchEnv) (w : World) (i : ℕ)
    → c.nr_llcs ≤ 8
    → c.cpu_llc_id (cpu_idx env.cpu) < 8
    → 0 < env.nr_queued (llc_dsq_base + i)
    → (imperator_dispatch c env w).world.llc_nonempty i ≡ w.llc_nonempty i
imperator_dispatch_keeps c env w i few small waiting =
    let order = llc_order c env.cpu w in
    rw
      (
        (imperator_dispatch-tried c env w few small).1 i,
        emptied-waiting env order i waiting (llc_order_holds c env.cpu w few small),
      )
      refl

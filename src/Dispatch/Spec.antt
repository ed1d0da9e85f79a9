-- ===== src/Dispatch/Spec.antt =====
-- The specification of imperator_dispatch: the queues are tried in an order, up to the first from
-- which a task can be moved.
use scx_imperator.Common.{
  ℕ, Bool, not, ◌&&◌, ◌||◌, List, [], ◌∷◌, Option, none, some, false, leb, ltb, ◌==◌, if◌then◌else◌,
}
use scx_imperator.Intf.{cpu_idx, llc_idx}
use scx_imperator.Compat.Scan.Clear.{listed}
use scx_imperator.State.{Rodata, World}
use scx_imperator.Dispatch.{DispatchEnv, Search, attempt, is_marked}

unfoldable pub try_all : DispatchEnv → List ℕ → Search → Search
try_all env [] s = s
try_all env (llc ∷ llcs) s =
    let s' = attempt env llc s in let rest = try_all env llcs s' in if s'.moved then s' else rest

-- The better of one LLC and of the best of those after it; 0 is a cost that is not known.
unfoldable pub better_of : (ℕ → ℕ) → ℕ → Option ℕ → Option ℕ
better_of cost x none = if cost x == 0 then none else some x
better_of cost x (some y) = if (cost x == 0) || ltb (cost y) (cost x) then some y else some x

-- The first of the cheapest, among those with a cost that is known.
unfoldable pub best : (ℕ → ℕ) → List ℕ → Option ℕ
best cost [] = none
best cost (x ∷ xs) = better_of cost x (best cost xs)

-- The cheapest first, the others by their number.
unfoldable pub steal_order : (marked : ℕ → Bool) (cost : ℕ → ℕ) → ℕ → Option ℕ → List ℕ
steal_order marked cost nr_llcs none = listed marked nr_llcs 0
steal_order marked cost nr_llcs (some x) = x ∷ listed (λ i. marked i && not (x == i)) nr_llcs 0

-- Before anything is tried: the own queue comes first, and with one LLC it is the only one.
unfoldable pub llc_order : Rodata → ℕ → World → List ℕ
llc_order c cpu w =
    let my_llc = c.cpu_llc_id (cpu_idx cpu) in
    let marked = is_marked my_llc w.llc_nonempty in
    let cost = λ (i : ℕ). w.llc_etd_cost (llc_idx my_llc) (llc_idx i) in
    my_llc
    ∷ (if leb c.nr_llcs 1
        then []
        else steal_order marked cost c.nr_llcs (best cost (listed marked c.nr_llcs 0)))

-- The CPU looks at its queues from here.
unfoldable pub start : World → Search
start w = record { moved = false; nonempty = w.llc_nonempty; calls = [] }

-- ===== src/Dispatch/Order.antt =====
-- The whole of imperator_dispatch against its specification.
use scx_imperator.Common.{
  ℕ, ◌≤◌, ◌<◌, ◌≡◌, ◌∙◌, refl, sym, arith, Bool, true, false, not, ◌&&◌, ◌||◌, List, [], Option,
  none, some, Bool-cases, inl, inr, leb, ◌==◌, if◌then◌else◌,
}
use native.Mathlib.Nat.{mod-eq_of_lt}
use scx_imperator.Intf.{cpu_idx, llc_idx}
use scx_imperator.Intf.Fused.{llc_idx-arith}
use scx_imperator.State.{Rodata, World}
use scx_imperator.Compat.Scan.Clear.{listed, listed_cong}
use scx_imperator.Dispatch.{DispatchEnv, Search, attempt, search, is_marked}
use scx_imperator.Dispatch.Spec.{try_all, best, steal_order, llc_order, start}
use scx_imperator.Dispatch.Refine.{steal_tries}

pub llc_idx-small : (llc : ℕ) → llc < 8 → llc_idx llc ≡ llc
llc_idx-small llc h = llc_idx-arith llc ∙ mod-eq_of_lt h

-- A try touches no flag but that of its queue.
pub attempt_other :
    (env : DispatchEnv) (llc : ℕ) (s : Search) (j : ℕ)
    → (llc_idx llc == j) ≡ false
    → (attempt env llc s).nonempty j ≡ s.nonempty j
unfolding attempt
attempt_other env llc s j other = ground (arith, other)

steal_order_cong :
    (p q : ℕ → Bool) (cost : ℕ → ℕ) (n : ℕ) (o : Option ℕ)
    → ((j : ℕ) → j < n → p j ≡ q j)
    → steal_order p cost n o ≡ steal_order q cost n o
unfolding steal_order
steal_order_cong p q cost n none h = listed_cong p q n 0 (λ j lt. h j (omega arith))
steal_order_cong p q cost n (some x) h =
    rw
      (listed_cong (λ i. p i && not (x == i)) (λ i. q i && not (x == i)) n 0
        (λ j lt. rw (h j (omega arith)) refl))
      refl

same_marks :
    (env : DispatchEnv) (my_llc : ℕ) (s : Search) (j : ℕ)
    → my_llc < 8
    → is_marked my_llc (attempt env my_llc s).nonempty j ≡ is_marked my_llc s.nonempty j
same_marks env my_llc s j small = elim (Bool-cases (j == my_llc)) [
  | inl e ↦ rw e refl
  | inr e ↦
      let other : (llc_idx my_llc == j) ≡ false = rw (llc_idx-small my_llc small) (ground arith) in
      rw (attempt_other env my_llc s j other) refl
]

choose :
    {A : Type 0} (moved alone : Bool) (own : A) {x : A} (order : List ℕ) (f : List ℕ → A)
    → f [] ≡ own
    → x ≡ f order
    → (if moved || alone then own else x) ≡ (if moved then own else f (if alone then [] else order))
choose true alone own order f stop more = refl
choose false true own order f stop more = sym stop
choose false false own order f stop more = more

-- The search tries the queues in the order of the specification.
pub search_tries :
    (c : Rodata) (env : DispatchEnv) (w : World)
    → c.nr_llcs ≤ 8
    → c.cpu_llc_id (cpu_idx env.cpu) < 8
    → search c env w ≡ try_all env (llc_order c env.cpu w) (start w)
unfolding search try_all llc_order start
search_tries c env w few small =
    let my_llc = c.cpu_llc_id (cpu_idx env.cpu) in
    let own = attempt env my_llc (start w) in
    let cost : ℕ → ℕ = λ i. w.llc_etd_cost (llc_idx my_llc) (llc_idx i) in
    let before : ℕ → Bool = is_marked my_llc w.llc_nonempty in
    let after : ℕ → Bool = is_marked my_llc own.nonempty in
    let same = λ (j : ℕ) (lt : j < c.nr_llcs). same_marks env my_llc (start w) j small in
    let order : steal_order after cost c.nr_llcs (best cost (listed after c.nr_llcs 0))
        ≡ steal_order before cost c.nr_llcs (best cost (listed before c.nr_llcs 0)) =
      rw (listed_cong after before c.nr_llcs 0 (λ j lt. same j (omega arith))) (
        steal_order_cong after before cost c.nr_llcs (best cost (listed before c.nr_llcs 0))
          same) in
    let tries = rw order at (steal_tries after cost c.nr_llcs (omega arith) env own) in
    choose own.moved (leb c.nr_llcs 1) own
      (steal_order before cost c.nr_llcs (best cost (listed before c.nr_llcs 0)))
      (λ llcs. try_all env llcs own) refl tries

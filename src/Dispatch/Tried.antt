-- ===== src/Dispatch/Tried.antt =====
-- What imperator_dispatch has done when it is done: the queues that it tried, and the flags that it
-- cleared.
use scx_imperator.Common.{
  ℕ, ◌+◌, ◌≤◌, ◌<◌, ◌≡◌, ◌∙◌, refl, sym, ap, arith, Bool, false, not, ◌&&◌, ◌||◌, List, [], ◌∷◌,
  ◌++◌, Bool-cases, inl, inr, ◌==◌, if◌then◌else◌,
}
use mathlib.Core.List.{append_assoc, append-nil}
use scx_imperator.Intf.{cpu_idx, llc_idx, llc_dsq_base}
use scx_imperator.State.{Rodata, World, Call, dsq_move_to_local}
use scx_imperator.Dispatch.{DispatchEnv, Search, attempt, imperator_dispatch}
use scx_imperator.Dispatch.Spec.{try_all, llc_order, start}
use scx_imperator.Dispatch.Order.{search_tries}

-- A task of this LLC's queue can be moved here.
unfoldable pub delivers : DispatchEnv → ℕ → Bool
delivers env llc = env.moves (llc_dsq_base + llc)

-- Those of an order that are tried: up to the first that delivers.
unfoldable pub tried : DispatchEnv → List ℕ → List ℕ
tried env [] = []
tried env (llc ∷ llcs) = let rest = tried env llcs in llc ∷ (if delivers env llc then [] else rest)

unfoldable pub any_delivers : DispatchEnv → List ℕ → Bool
any_delivers env [] = false
any_delivers env (llc ∷ llcs) = delivers env llc || any_delivers env llcs

-- Was flag `j` that of a queue which failed and has nothing waiting?
unfoldable pub emptied : DispatchEnv → List ℕ → ℕ → Bool
emptied env [] j = false
emptied env (llc ∷ llcs) j =
    not (delivers env llc) && (env.nr_queued (llc_dsq_base + llc) == 0) && (llc_idx llc == j)
    || emptied env llcs j

unfoldable pub moves_of : List ℕ → List Call
moves_of [] = []
moves_of (llc ∷ llcs) = dsq_move_to_local (llc_dsq_base + llc) ∷ moves_of llcs

attempt-moved :
    (env : DispatchEnv) (llc : ℕ) (s : Search) → (attempt env llc s).moved ≡ delivers env llc
unfolding attempt delivers
attempt-moved env llc s = refl

attempt-calls :
    (env : DispatchEnv) (llc : ℕ) (s : Search)
    → (attempt env llc s).calls ≡ s.calls ++ dsq_move_to_local (llc_dsq_base + llc) ∷ []
unfolding attempt
attempt-calls env llc s = refl

attempt-nonempty :
    (env : DispatchEnv) (llc : ℕ) (s : Search) (j : ℕ)
    → (attempt env llc s).nonempty j ≡ (
        if not (delivers env llc) && (env.nr_queued (llc_dsq_base + llc) == 0) && (llc_idx llc == j)
        then 0
        else s.nonempty j)
unfolding attempt delivers
attempt-nonempty env llc s j = ground arith

pub try_all-moved :
    (env : DispatchEnv) (order : List ℕ) (s : Search)
    → s.moved ≡ false
    → (try_all env order s).moved ≡ any_delivers env order
unfolding try_all any_delivers
try_all-moved env [] s h = h
try_all-moved env (llc ∷ llcs) s h = elim (Bool-cases (delivers env llc)) [
  | inl e ↦ let yes = attempt-moved env llc s ∙ e in rw e (simp yes refl)
  | inr e ↦
      let no = attempt-moved env llc s ∙ e in
      rw e (simp no (try_all-moved env llcs (attempt env llc s) no))
]

try_all-calls :
    (env : DispatchEnv) (order : List ℕ) (s : Search)
    → (try_all env order s).calls ≡ s.calls ++ moves_of (tried env order)
unfolding try_all tried moves_of
try_all-calls env [] s = sym (append-nil s.calls)
try_all-calls env (llc ∷ llcs) s =
    let here = attempt-calls env llc s in
    elim (Bool-cases (delivers env llc)) [
      | inl e ↦ let yes = attempt-moved env llc s ∙ e in rw e (simp yes here)
      | inr e ↦
          let no = attempt-moved env llc s ∙ e in
          rw e (
            simp no (
              try_all-calls env llcs (attempt env llc s)
              ∙ ap (λ made. made ++ moves_of (tried env llcs)) here
              ∙ append_assoc s.calls (dsq_move_to_local (llc_dsq_base + llc) ∷ [])
                  (moves_of (tried env llcs))))
    ]

try_all-nonempty :
    (env : DispatchEnv) (order : List ℕ) (s : Search) (j : ℕ)
    → (try_all env order s).nonempty j
      ≡ (if emptied env (tried env order) j then 0 else s.nonempty j)
unfolding try_all tried emptied
try_all-nonempty env [] s j = refl
try_all-nonempty env (llc ∷ llcs) s j =
    let here = attempt-nonempty env llc s j in
    elim (Bool-cases (delivers env llc)) [
      | inl e ↦ let yes = attempt-moved env llc s ∙ e in rw e (simp yes (rw e at here))
      | inr e ↦
          let no = attempt-moved env llc s ∙ e in
          let later = try_all-nonempty env llcs (attempt env llc s) j in
          rw e (simp no (ground (arith, later, here, e)))
    ]

-- With at most eight LLCs, imperator_dispatch refines its specification: it asks the queues in the
-- order that is specified, up to the first that delivers, and clears the flags of exactly those that
-- fail and are empty.
pub imperator_dispatch-tried :
    (c : Rodata) (env : DispatchEnv) (w : World)
    → c.nr_llcs ≤ 8
    → c.cpu_llc_id (cpu_idx env.cpu) < 8
    → ((imperator_dispatch c env w).calls ≡ moves_of (tried env (llc_order c env.cpu w)))
      × ((j : ℕ)
          → (imperator_dispatch c env w).world.llc_nonempty j
            ≡ (if emptied env (tried env (llc_order c env.cpu w)) j then 0 else w.llc_nonempty j))
unfolding imperator_dispatch start
imperator_dispatch-tried c env w few small =
    let order = llc_order c env.cpu w in
    rw (search_tries c env w few small)
      (try_all-calls env order (start w), λ j. try_all-nonempty env order (start w) j)

-- No context changes, and no mask of an LLC.
pub imperator_dispatch_masks :
    (c : Rodata) (env : DispatchEnv) (w : World)
    → (imperator_dispatch c env w).world.llc_cpu_mask ≡ w.llc_cpu_mask
unfolding imperator_dispatch
imperator_dispatch_masks c env w = refl

pub imperator_dispatch_tasks :
    (c : Rodata) (env : DispatchEnv) (w : World)
    → (imperator_dispatch c env w).world.tasks ≡ w.tasks
unfolding imperator_dispatch
imperator_dispatch_tasks c env w = refl

pub imperator_dispatch_stats :
    (c : Rodata) (env : DispatchEnv) (w : World)
    → (imperator_dispatch c env w).world.global_stats ≡ w.global_stats
unfolding imperator_dispatch
imperator_dispatch_stats c env w = refl

pub imperator_dispatch_tiers :
    (c : Rodata) (env : DispatchEnv) (w : World)
    → (imperator_dispatch c env w).world.tier_cpu_mask ≡ w.tier_cpu_mask
unfolding imperator_dispatch
imperator_dispatch_tiers c env w = refl

-- ===== src/State/Counters.antt =====
-- The counters of src/bpf/intf.h for the burst credit and for the starvation check of the tick.
use scx_imperator.Common.{ℕ, ◌≡◌, ◌==◌, update, Bool-cases, inl, inr}
use scx_imperator.State.{Stats, World}

-- Nothing is counted there.
pub record ReadsZero (s : Stats) : Type 0 where
  pub preempts : (tier : ℕ) → s.nr_starvation_preempts_tier tier ≡ 0
  pub skips : s.nr_lock_holder_skips ≡ 0
  pub earned : s.nr_preempt_with_credit ≡ 0
  pub consumed : s.nr_burst_credit_consumed ≡ 0

-- The same at every CPU.
unfoldable pub AllReadZero : World → Type 0
AllReadZero w = (cpu : ℕ) → ReadsZero (w.global_stats cpu)

pub every_cpu : (w : World) → AllReadZero w → (cpu : ℕ) → ReadsZero (w.global_stats cpu)
unfolding AllReadZero
every_cpu w zero_at = zero_at

pub same-AllReadZero :
    (w w' : World) → w'.global_stats ≡ w.global_stats → AllReadZero w → AllReadZero w'
unfolding AllReadZero
same-AllReadZero w w' e zero_at = λ cpu. rw e (zero_at cpu)

-- The counters of one CPU are replaced.
pub update-AllReadZero :
    (w w' : World) (here : ℕ) (s : Stats)
    → w'.global_stats ≡ update w.global_stats here s
    → ReadsZero s
    → AllReadZero w
    → AllReadZero w'
unfolding AllReadZero
update-AllReadZero w w' here s e new old = λ cpu. elim (Bool-cases (here == cpu)) [
  | inl at ↦ rw (e, at) new
  | inr at ↦ rw (e, at) (old cpu)
]

-- ===== src/Tick/Starvation.antt =====
-- The starvation check: its backoff by the tick counter, and the skips of a lock holder.
use scx_imperator.Common.{
  ℕ, suc, ◌+◌, ◌-◌, ◌%◌, ◌≤◌, ◌<◌, ◌≡◌, arith, true, false, List, [], ◌∷◌, ◌++◌, bit_and_low,
  bit_and-zero, ◌==◌,
}
use scx_imperator.State.{
  Rodata, Kernel, Call, dsq_insert, dsq_insert_vtime, dsq_move_to_local, kick_cpu, cpuperf_set,
  create_dsq,
}
use scx_imperator.Tick.{Env, TickState, check_due, expired, steer}

-- When the check runs.
pub check_due-arith :
    (tc : ℕ)
    → (tc < 8 → check_due tc ≡ true)
      × (8 ≤ tc → tc < 16 → check_due tc ≡ (tc % 2 == 0))
      × (16 ≤ tc → tc < 32 → check_due tc ≡ (tc % 4 == 0))
      × (32 ≤ tc → check_due tc ≡ (tc % 8 == 0))
unfolding check_due
check_due-arith tc = (
  λ h. ground (arith, bit_and-zero tc),
  λ h k. ground (arith, bit_and_low 1 tc),
  λ h k. ground (arith, bit_and_low 2 tc),
  λ h. ground (arith, bit_and_low 3 tc),
)

-- Below the last bucket the check is due again within eight increments.
pub check_due_within : (tc : ℕ) → tc ≤ 248 → (d : ℕ) × (d < 8) × (check_due (tc + d) ≡ true)
check_due_within tc h =
    let d = (8 - tc % 8) % 8 in (d, omega arith, ground (arith, check_due-arith (tc + d)))

-- The number of kicks among the calls.
unfoldable pub kicks : List Call → ℕ
kicks [] = 0
kicks (kick_cpu cpu flags ∷ cs) = suc (kicks cs)
kicks (dsq_insert a b c d ∷ cs) = kicks cs
kicks (dsq_insert_vtime a b c d e ∷ cs) = kicks cs
kicks (dsq_move_to_local a ∷ cs) = kicks cs
kicks (cpuperf_set a b ∷ cs) = kicks cs
kicks (create_dsq a ∷ cs) = kicks cs

pub kicks-append : (xs ys : List Call) → kicks (xs ++ ys) ≡ kicks xs + kicks ys
unfolding kicks
kicks-append [] ys = omega arith
kicks-append (kick_cpu a b ∷ xs) ys = omega (arith, kicks-append xs ys)
kicks-append (dsq_insert a b c d ∷ xs) ys = kicks-append xs ys
kicks-append (dsq_insert_vtime a b c d e ∷ xs) ys = kicks-append xs ys
kicks-append (dsq_move_to_local a ∷ xs) ys = kicks-append xs ys
kicks-append (cpuperf_set a b ∷ xs) ys = kicks-append xs ys
kicks-append (create_dsq a ∷ xs) ys = kicks-append xs ys

pub kicks-steer :
    (cpu target : ℕ) (s : TickState) → kicks (steer cpu target s).calls ≡ kicks s.calls
unfolding steer kicks
kicks-steer cpu target s = ground (arith, kicks-append s.calls (cpuperf_set cpu target ∷ []))

-- A task within its slice is not preempted for it, whatever is waiting.
pub expired_within :
    (k : Kernel) (c : Rodata) (env : Env) (cpu runtime : ℕ) (s : TickState)
    → runtime ≤ s.task.next_slice
    → expired k c env cpu runtime s ≡ false
unfolding expired
expired_within k c env cpu runtime s h = ground arith

-- ===== src/Init/Laws.antt =====
-- What imperator_init leaves: the members of each LLC, and the queues up to the first error.
use scx_imperator.Common.{
  ℕ, zero, suc, ◌+◌, ◌^◌, ◌<◌, ◌≡◌, refl, arith, Bool, true, false, ◌&&◌, ◌||◌, List, [], ◌∷◌, inl,
  inr, Bool-cases, ltb, leb, ◌==◌, ==_iff, test_bit, test_bit-bit_or, test_bit-pow, ℤ, pos,
  is_nonneg,
}
use scx_imperator.Intf.{llc_idx, llc_dsq_base}
use scx_imperator.State.{Rodata, World, Call, create_dsq}
use scx_imperator.Init.{add_cpu, add_cpus, cpu_rounds, create_dsqs, imperator_init}

-- The configuration puts the CPU, as one of `rounds`, into the LLC.
abbrev pub is_member : Rodata → ℕ → ℕ → Bool
is_member c llc cpu = ltb cpu (cpu_rounds c) && (llc_idx (c.cpu_llc_id cpu) == llc)

abbrev between : ℕ → ℕ → ℕ → Bool
between lo hi i = leb lo i && ltb i hi

add_cpu_bit :
    (c : Rodata) (cpu : ℕ) (masks : ℕ → ℕ) (llc i : ℕ)
    → test_bit (add_cpu c cpu masks llc) i
      ≡ (test_bit (masks llc) i || (cpu == i) && (llc_idx (c.cpu_llc_id cpu) == llc))
unfolding add_cpu
add_cpu_bit c cpu masks llc i =
    ground (arith, test_bit-bit_or (masks llc) (2 ^ cpu) i, test_bit-pow cpu i)

same_cpu :
    (c : Rodata) (cpu i llc : ℕ)
    → ((cpu == i) && (llc_idx (c.cpu_llc_id cpu) == llc))
      ≡ ((cpu == i) && (llc_idx (c.cpu_llc_id i) == llc))
same_cpu c cpu i llc = elim (Bool-cases (cpu == i)) [
  | inl e ↦ let e' : cpu ≡ i = (==_iff cpu i).0 e in rw e' refl
  | inr e ↦ rw e refl
]

add_cpus_bit :
    (c : Rodata) (left cpu : ℕ) (masks : ℕ → ℕ) (llc i : ℕ)
    → test_bit (add_cpus c left cpu masks llc) i
      ≡ (test_bit (masks llc) i || between cpu (cpu + left) i && (llc_idx (c.cpu_llc_id i) == llc))
unfolding add_cpus
add_cpus_bit c zero cpu masks llc i = ground arith
add_cpus_bit c (suc left) cpu masks llc i = ground (
  arith,
  add_cpus_bit c left (cpu + 1) (add_cpu c cpu masks) llc i,
  add_cpu_bit c cpu masks llc i,
  same_cpu c cpu i llc,
)

-- After the start an LLC's mask has the bit of a CPU exactly if the configuration puts the CPU into
-- the LLC, or the mask had the bit before. The queues make no difference to it.
pub imperator_init_masks :
    (c : Rodata) (create : ℕ → ℤ) (w : World) (llc i : ℕ)
    → test_bit ((imperator_init c create w).world.llc_cpu_mask llc) i
      ≡ (test_bit (w.llc_cpu_mask llc) i || is_member c llc i)
unfolding imperator_init
imperator_init_masks c create w llc i =
    ground (arith, add_cpus_bit c (cpu_rounds c) 0 w.llc_cpu_mask llc i)

-- The calls for `n` queues, from `i` on.
pub made : ℕ → ℕ → List Call
made i zero = []
made i (suc n) = create_dsq (llc_dsq_base + i) ∷ made (i + 1) n

module _ (create : ℕ → ℤ) where
  abbrev pub Works : ℕ → Type 0
  Works i = is_nonneg (create (llc_dsq_base + i)) ≡ true

  all_made :
      (n i : ℕ)
      → ((m : ℕ) → m < n → Works (i + m))
      → create_dsqs create n i ≡ record { ret = pos 0; calls = made i n }
  unfolding create_dsqs made
  all_made zero i h = refl
  all_made (suc n) i h =
      let now : Works i = let e : i + 0 ≡ i = omega arith in rw e at (h 0 (omega arith)) in
      let later = λ (m : ℕ) (lt : m < n).
        let e : i + suc m ≡ i + 1 + m = omega arith in rw e at (h (suc m) (omega arith)) in
      rw now (rw (all_made n (i + 1) later) refl)

  made_until :
      (k n i : ℕ)
      → k < n
      → ((m : ℕ) → m < k → Works (i + m))
      → is_nonneg (create (llc_dsq_base + (i + k))) ≡ false
      → create_dsqs create n i
        ≡ record { ret = create (llc_dsq_base + (i + k)); calls = made i (suc k) }
  unfolding create_dsqs made
  made_until k zero i lt h bad = absurd (omega arith)
  made_until zero (suc n) i lt h bad =
      let e : i + 0 ≡ i = omega arith in
      let bad' : is_nonneg (create (llc_dsq_base + i)) ≡ false = rw e at bad in rw e (rw bad' refl)
  made_until (suc k) (suc n) i lt h bad =
      let e : (m : ℕ) → i + suc m ≡ i + 1 + m = λ m. omega arith in
      let now : Works i = let e0 : i + 0 ≡ i = omega arith in rw e0 at (h 0 (omega arith)) in
      let later = λ (m : ℕ) (lt' : m < k). rw (e m) at (h (suc m) (omega arith)) in
      let bad' = rw (e k) at bad in
      rw (e k) (rw now (rw (made_until k n (i + 1) (omega arith) later bad') refl))

module _ (c : Rodata) (create : ℕ → ℤ) (w : World) where
  -- If every queue can be created, the start succeeds with one queue for each LLC, in order.
  pub imperator_init_success :
      ((m : ℕ) → m < c.nr_llcs → Works create m)
      → let r = (imperator_init c create w).created in
        (r.ret ≡ pos 0) × (r.calls ≡ made 0 c.nr_llcs)
  unfolding imperator_init
  imperator_init_success h =
      let good =
        λ (m : ℕ) (lt : m < c.nr_llcs). let e : m ≡ 0 + m = omega arith in rw e at (h m lt) in
      rw (all_made create c.nr_llcs 0 good) (refl, refl)

  -- At the first queue that cannot be created the start stops and returns the kernel's error. The
  -- queues before it have been created, the later ones are not asked for, and the masks are those of
  -- a start that succeeds.
  pub imperator_init_error :
      (k : ℕ)
      → k < c.nr_llcs
      → ((m : ℕ) → m < k → Works create m)
      → is_nonneg (create (llc_dsq_base + k)) ≡ false
      → let s = imperator_init c create w in
        (s.created.ret ≡ create (llc_dsq_base + k))
        × (s.created.calls ≡ made 0 (suc k))
        × (s.world ≡ (imperator_init c (λ _. pos 0) w).world)
  unfolding imperator_init
  imperator_init_error k lt h bad =
      let e : (m : ℕ) → m ≡ 0 + m = λ m. omega arith in
      let good = λ (m : ℕ) (small : m < k). rw (e m) at (h m small) in
      let stop = made_until create k c.nr_llcs 0 lt good (rw (e k) at bad) in
      let e' : 0 + k ≡ k = omega arith in rw (rw e' at stop) (refl, refl, refl)

  -- No context changes, and no flag of an LLC.
  pub imperator_init_tasks : (imperator_init c create w).world.tasks ≡ w.tasks
  unfolding imperator_init
  imperator_init_tasks = refl

  pub imperator_init_stats : (imperator_init c create w).world.global_stats ≡ w.global_stats
  unfolding imperator_init
  imperator_init_stats = refl

  pub imperator_init_nonempty : (imperator_init c create w).world.llc_nonempty ≡ w.llc_nonempty
  unfolding imperator_init
  imperator_init_nonempty = refl

  pub imperator_init_tiers : (imperator_init c create w).world.tier_cpu_mask ≡ w.tier_cpu_mask
  unfolding imperator_init
  imperator_init_tiers = refl

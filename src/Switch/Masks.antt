-- ===== src/Switch/Masks.antt =====
-- tier_cpu_mask tells which CPU runs a task of which tier, over any run of context switches.
use scx_imperator.Common.{
  ℕ, ◌^◌, ◌<◌, ◌≡◌, ◌≢◌, ◌∙◌, refl, sym, ap, arith, Bool, true, false, not, ◌&&◌, ◌||◌, Option,
  none, some, bit_and_low, ◌==◌, if◌then◌else◌, update, not_u64, test_bit, test_bit-bit_or,
  test_bit-bit_and, test_bit-pow, test_bit-zero, ==_iff, bit_and-le, bit_or-lt, test_bit-not_pow,
  pow-lt,
}
use scx_imperator.Intf.{get_tier, cake_tier_idx, cpu_idx}
use scx_imperator.Intf.Laws.{get_tier-lt}
use scx_imperator.Intf.Fused.{cake_tier_idx-arith, cpu_idx-arith}
use scx_imperator.State.{TaskCtx, Rodata, World}
use scx_imperator.Task.{IsWf}
use scx_imperator.Switch.{
  mark_cpu, unmark_cpu, imperator_running, imperator_stopping, run_by, stop_by, run_ctx, stop_ctx,
}

module _ (tier cpu : ℕ) (masks : ℕ → ℕ) (ht : tier < 4) (hc : cpu < 64) where
  pub mark_bit :
      (u i : ℕ)
      → test_bit (mark_cpu tier cpu masks u) i ≡ ((tier == u) && (cpu == i) || test_bit (masks u) i)
  unfolding mark_cpu
  mark_bit u i =
      ground
        (arith, bit_and_low 2 tier, test_bit-bit_or (masks tier) (2 ^ cpu) i, test_bit-pow cpu i)

  pub unmark_bit :
      (u i : ℕ)
      → i < 64
      → test_bit (unmark_cpu tier cpu masks u) i
        ≡ (not ((tier == u) && (cpu == i)) && test_bit (masks u) i)
  unfolding unmark_cpu
  unmark_bit u i hi = ground (
    arith,
    bit_and_low 2 tier,
    test_bit-bit_and (masks tier) (not_u64 (2 ^ cpu)) i,
    test_bit-not_pow cpu i hc hi,
  )

  mark_fits : ((u : ℕ) → masks u < 2 ^ 64) → (u : ℕ) → mark_cpu tier cpu masks u < 2 ^ 64
  unfolding mark_cpu
  mark_fits all u = ground (
    arith,
    bit_and_low 2 tier,
    all u,
    all tier,
    bit_or-lt 64 (masks tier) (2 ^ cpu) (all tier) (pow-lt cpu 64 hc),
  )

  unmark_fits : ((u : ℕ) → masks u < 2 ^ 64) → (u : ℕ) → unmark_cpu tier cpu masks u < 2 ^ 64
  unfolding unmark_cpu
  unmark_fits all u =
      ground
        (arith, bit_and_low 2 tier, all u, all tier, bit_and-le (masks tier) (not_u64 (2 ^ cpu)))

-- The tier that each CPU runs, or none.
abbrev pub Running : Type 0
Running = ℕ → Option ℕ

abbrev pub runs_tier : Running → ℕ → ℕ → Bool
runs_tier r cpu tier = elim (r cpu) [ none ↦ false | some u ↦ u == tier ]

-- The runs of context switches, from a start at which no CPU is marked. The kernel lets a CPU run a
-- task only when it runs none, and stop the one that it runs; between the two the tier of the task
-- stays, since only its stop reclassifies it.
pub data Switches (c : Rodata) : World → Running → Type 0 where
  start : (w : World) → ((tier : ℕ) → w.tier_cpu_mask tier ≡ 0) → Switches c w (λ _. none)
  run :
      {w : World} {r : Running} (cpu now p : ℕ) (t : TaskCtx)
      → Switches c w r
      → cpu < 64
      → r cpu ≡ none
      → w.tasks p ≡ some t
      → IsWf t
      → Switches c (imperator_running c cpu now p w) (update r cpu (some (get_tier t.packed_info)))
  stop :
      {w : World} {r : Running} (runnable : Bool) (cpu now now' p : ℕ) (t : TaskCtx)
      → Switches c w r
      → cpu < 64
      → w.tasks p ≡ some t
      → IsWf t
      → t.last_run_at ≢ 0
      → r cpu ≡ some (get_tier t.packed_info)
      → Switches c (imperator_stopping c runnable cpu now now' p w) (update r cpu none)

pub record MasksExact (w : World) (r : Running) : Type 0 where
  pub fits : (tier : ℕ) → w.tier_cpu_mask tier < 2 ^ 64
  pub exact : (tier cpu : ℕ) → cpu < 64 → test_bit (w.tier_cpu_mask tier) cpu ≡ runs_tier r cpu tier

idx_tier : (t : TaskCtx) → IsWf t → cake_tier_idx (get_tier t.packed_info) ≡ get_tier t.packed_info
idx_tier t wf =
    omega (
      arith,
      cake_tier_idx-arith (get_tier t.packed_info),
      get_tier-lt t.packed_info wf.packed_fits,
    )

idx_cpu : (cpu : ℕ) → cpu < 64 → cpu_idx cpu ≡ cpu
idx_cpu cpu h = omega (arith, cpu_idx-arith cpu)

pub run_masks :
    (c : Rodata) (cpu now p : ℕ) (t : TaskCtx) (w : World)
    → cpu < 64
    → w.tasks p ≡ some t
    → IsWf t
    → (imperator_running c cpu now p w).tier_cpu_mask
      ≡ mark_cpu (get_tier t.packed_info) cpu w.tier_cpu_mask
unfolding imperator_running run_by run_ctx
run_masks c cpu now p t w hc here wf = rw here (rw (idx_tier t wf) (rw (idx_cpu cpu hc) refl))

pub stop_masks :
    (c : Rodata) (r : Bool) (cpu now now' p : ℕ) (t : TaskCtx) (w : World)
    → cpu < 64
    → w.tasks p ≡ some t
    → IsWf t
    → t.last_run_at ≢ 0
    → (imperator_stopping c r cpu now now' p w).tier_cpu_mask
      ≡ unmark_cpu (get_tier t.packed_info) cpu w.tier_cpu_mask
unfolding imperator_stopping stop_by stop_ctx
stop_masks c r cpu now now' p t w hc here wf ran =
    let stamped : (t.last_run_at == 0) ≡ false = ground arith in
    rw here (rw stamped (rw (idx_tier t wf) (rw (idx_cpu cpu hc) refl)))

-- One bit against one entry of the table.
abbrev pub is_tier : Option ℕ → ℕ → Bool
is_tier x tier = elim x [ none ↦ false | some u ↦ u == tier ]

marked :
    (same bit : Bool) (x : Option ℕ) (u tier : ℕ)
    → (same ≡ true → x ≡ none)
    → bit ≡ is_tier x tier
    → ((u == tier) && same || bit) ≡ is_tier (if same then some u else x) tier
marked true bit x u tier free e =
    ground (arith, e ∙ ap (λ (y : Option ℕ). is_tier y tier) (free refl))
marked false bit x u tier free e = ground (arith, e)

unmarked :
    (same bit : Bool) (x : Option ℕ) (u tier : ℕ)
    → (same ≡ true → x ≡ some u)
    → bit ≡ is_tier x tier
    → (not ((u == tier) && same) && bit) ≡ is_tier (if same then none else x) tier
unmarked true bit x u tier held e =
    ground (arith, e ∙ ap (λ (y : Option ℕ). is_tier y tier) (held refl))
unmarked false bit x u tier held e = ground (arith, e)

module _ (c : Rodata) (w : World) (r : Running) (m : MasksExact w r) (cpu p : ℕ) (t : TaskCtx)
    (hc : cpu < 64) (here : w.tasks p ≡ some t) (wf : IsWf t) where
  pub imperator_running-MasksExact :
      (now : ℕ)
      → r cpu ≡ none
      → MasksExact (imperator_running c cpu now p w) (update r cpu (some (get_tier t.packed_info)))
  imperator_running-MasksExact now idle =
      let u = get_tier t.packed_info in
      let ht = get_tier-lt t.packed_info wf.packed_fits in
      let e = run_masks c cpu now p t w hc here wf in
      record {
        fits = λ tier. rw e (mark_fits u cpu w.tier_cpu_mask ht hc m.fits tier);
        exact = λ tier i h. rw e (
            mark_bit u cpu w.tier_cpu_mask ht hc tier i
            ∙ marked (cpu == i) (test_bit (w.tier_cpu_mask tier) i) (r i) u tier
                (λ same. ap r (sym ((==_iff cpu i).0 same)) ∙ idle) (m.exact tier i h));
      }

  pub imperator_stopping-MasksExact :
      (runnable : Bool) (now now' : ℕ)
      → t.last_run_at ≢ 0
      → r cpu ≡ some (get_tier t.packed_info)
      → MasksExact (imperator_stopping c runnable cpu now now' p w) (update r cpu none)
  imperator_stopping-MasksExact runnable now now' ran at =
      let u = get_tier t.packed_info in
      let ht = get_tier-lt t.packed_info wf.packed_fits in
      let e = stop_masks c runnable cpu now now' p t w hc here wf ran in
      record {
        fits = λ tier. rw e (unmark_fits u cpu w.tier_cpu_mask ht hc m.fits tier);
        exact = λ tier i h. rw e (
            unmark_bit u cpu w.tier_cpu_mask ht hc tier i h
            ∙ unmarked (cpu == i) (test_bit (w.tier_cpu_mask tier) i) (r i) u tier
                (λ same. ap r (sym ((==_iff cpu i).0 same)) ∙ at) (m.exact tier i h));
      }

-- Masks that do not change, and CPUs that run tasks of the same tiers as before.
pub same-MasksExact :
    (w w' : World) (r r' : Running)
    → w'.tier_cpu_mask ≡ w.tier_cpu_mask
    → ((cpu : ℕ) → r' cpu ≡ r cpu)
    → MasksExact w r
    → MasksExact w' r'
same-MasksExact w w' r r' same rs m = record {
  fits = λ tier. rw same (m.fits tier);
  exact = λ tier cpu h.
      rw same (m.exact tier cpu h ∙ sym (ap (λ (x : Option ℕ). is_tier x tier) (rs cpu)));
}

pub zero-MasksExact :
    (w : World) → ((tier : ℕ) → w.tier_cpu_mask tier ≡ 0) → MasksExact w (λ _. none)
zero-MasksExact w zeros = record {
  fits = λ tier. omega (arith, zeros tier);
  exact = λ tier cpu h. rw (zeros tier) (test_bit-zero cpu);
}

-- At every point of a run of context switches, the bit of a CPU is set in the mask of a tier exactly
-- if the CPU runs a task of that tier, and the masks have no bit beyond the 64 CPUs.
pub Switches-MasksExact : (c : Rodata) (w : World) (r : Running) → Switches c w r → MasksExact w r
Switches-MasksExact c w r (start w' zeros) = zero-MasksExact w' zeros
Switches-MasksExact c _ _ (run {w = w} {r = r} cpu now p t before hc idle here wf) =
    imperator_running-MasksExact c w r (Switches-MasksExact c w r before) cpu p t hc here wf now
      idle
Switches-MasksExact c _ _
      (stop {w = w} {r = r} runnable cpu now now' p t before hc here wf ran at) =
    imperator_stopping-MasksExact c w r (Switches-MasksExact c w r before) cpu p t hc here wf
      runnable now now' ran at

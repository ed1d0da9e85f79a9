-- ===== src/Reclassify/Converge.antt =====
-- The average of reclassify_task_cold over many stops whose bursts are equally long.
use scx_imperator.Common.{ℕ, zero, suc, ◌+◌, ◌-◌, ◌/◌, ◌^◌, ◌≤◌, ◌<◌, ◌≡◌, ◌≢◌, refl, arith, false}
use native.Mathlib.Nat.{zero-add, suc-add}
use native.Mathlib.Decide.{dec_le}
use scx_imperator.Intf.{extract_avg_rt}
use scx_imperator.Intf.Fused.{extract_avg_rt-lt}
use scx_imperator.State.{TaskCtx, Rodata}
use scx_imperator.Task.{IsWf}
use scx_imperator.Reclassify.{
  ewma, classify, tier_gate_promote, tier_gate_demote, reclassify_task_cold,
}
use scx_imperator.Reclassify.Stop.{judged, reclassify_average}

abbrev pub avg_of : TaskCtx → ℕ
avg_of t = extract_avg_rt t.deficit_avg_fused

-- Stops of a task that goes to sleep, each judged by the burst `rt`. From one stop to the next the
-- context may change in everything but its average.
pub data Stops (c : Rodata) (rt : ℕ) : ℕ → TaskCtx → TaskCtx → Type 0 where
  at_first : (t : TaskCtx) → Stops c rt zero t t
  one_more :
      {n : ℕ} {t u : TaskCtx} (now : ℕ) (u' : TaskCtx)
      → Stops c rt n t u
      → avg_of u' ≡ avg_of u
      → IsWf u'
      → u'.last_run_at ≢ 0
      → judged now u' ≡ rt
      → Stops c rt (suc n) t (reclassify_task_cold c false now u')

-- A distance after some rounds.
rounds : (ℕ → ℕ) → ℕ → ℕ → ℕ
rounds f zero d = d
rounds f (suc n) d = f (rounds f n d)

module _ (f : ℕ → ℕ) (mono : (d e : ℕ) → d ≤ e → f d ≤ f e) (shrinks : (d : ℕ) → f d ≤ d) where
  rounds_mono : (n d e : ℕ) → d ≤ e → rounds f n d ≤ rounds f n e
  unfolding rounds
  rounds_mono zero d e h = h
  rounds_mono (suc n) d e h = mono (rounds f n d) (rounds f n e) (rounds_mono n d e h)

  rounds_later : (n k d : ℕ) → rounds f (n + k) d ≤ rounds f k d
  unfolding rounds
  rounds_later zero k d = rw zero-add (omega arith)
  rounds_later (suc n) k d =
      rw suc-add (omega (arith, shrinks (rounds f (n + k) d), rounds_later n k d))

abbrev fall : ℕ → ℕ
fall d = d - d / 4

abbrev rise : ℕ → ℕ
rise d = d - d / 16

-- One stop brings the average closer, by the quarter or by the sixteenth.
ewma_falls :
    (avg rt d : ℕ)
    → avg < 2 ^ 16
    → rt ≤ avg
    → avg ≤ rt + d
    → (rt ≤ ewma false avg rt) × (ewma false avg rt ≤ rt + fall d)
unfolding ewma
ewma_falls avg rt d small above near = (ground arith, ground arith)

ewma_rises :
    (avg rt d : ℕ)
    → rt < 2 ^ 16
    → avg ≤ rt
    → rt ≤ avg + d
    → (ewma false avg rt ≤ rt) × (rt ≤ ewma false avg rt + rise d)
unfolding ewma
ewma_rises avg rt d small below near = (ground arith, ground arith)

-- What is left of any distance of 16 bits.
far_falls : rounds fall 37 0xffff ≡ 3
unfolding rounds
far_falls = refl

far_rises : rounds rise 139 0xffff ≡ 15
unfolding rounds
far_rises = refl

fallen : (n d : ℕ) → 37 ≤ n → d < 2 ^ 16 → rounds fall n d ≤ 3
fallen n d long small =
    let later = rounds_later fall (λ a b h. omega arith) (λ a. omega arith) (n - 37) 37 d in
    let near =
      rounds_mono fall (λ a b h. omega arith) (λ a. omega arith) 37 d 0xffff (omega arith) in
    let e : n - 37 + 37 ≡ n = omega arith in
    let later' : rounds fall n d ≤ rounds fall 37 d = rw e at later in
    omega (arith, later', near, far_falls)

risen : (n d : ℕ) → 139 ≤ n → d < 2 ^ 16 → rounds rise n d ≤ 15
risen n d long small =
    let later = rounds_later rise (λ a b h. omega arith) (λ a. omega arith) (n - 139) 139 d in
    let near =
      rounds_mono rise (λ a b h. omega arith) (λ a. omega arith) 139 d 0xffff (omega arith) in
    let e : n - 139 + 139 ≡ n = omega arith in
    let later' : rounds rise n d ≤ rounds rise 139 d = rw e at later in
    omega (arith, later', near, far_rises)

module _ (c : Rodata) (rt : ℕ) where
  Stops-fall :
      {n : ℕ} {t t' : TaskCtx}
      → Stops c rt n t t'
      → rt ≤ avg_of t
      → (rt ≤ avg_of t') × (avg_of t' ≤ rt + rounds fall n (avg_of t - rt))
  unfolding rounds
  Stops-fall (at_first t) above = (above, omega arith)
  Stops-fall (one_more {n = n} {t = t} {u = u} now u' before same wf ran is) above =
      let ih = Stops-fall before above in
      rw (reclassify_average c false now u' wf ran) (
        rw (same, is)
          (ewma_falls (avg_of u) rt (rounds fall n (avg_of t - rt)) (extract_avg_rt-lt _) ih.0
            ih.1))

  Stops-rise :
      {n : ℕ} {t t' : TaskCtx}
      → rt < 2 ^ 16
      → Stops c rt n t t'
      → avg_of t ≤ rt
      → (avg_of t' ≤ rt) × (rt ≤ avg_of t' + rounds rise n (rt - avg_of t))
  unfolding rounds
  Stops-rise small (at_first t) below = (below, omega arith)
  Stops-rise small (one_more {n = n} {t = t} {u = u} now u' before same wf ran is) below =
      let ih = Stops-rise small before below in
      rw (reclassify_average c false now u' wf ran)
        (rw (same, is) (ewma_rises (avg_of u) rt (rounds rise n (rt - avg_of t)) small ih.0 ih.1))

  -- A task with a time stamp and a well-formed context at each stop, whose finished bursts all
  -- last `rt` of 16 bits, and whose average changes at the stops only: after 37 stops the
  -- average is at most 3 above `rt` if it was not below it at first, after 139 stops it is at
  -- most 15 below if it was not above it at first, and it has not passed `rt`.
  pub Stops-settle :
      {n : ℕ} {t t' : TaskCtx}
      → rt < 2 ^ 16
      → Stops c rt n t t'
      → (rt ≤ avg_of t → 37 ≤ n → (rt ≤ avg_of t') × (avg_of t' ≤ rt + 3))
        × (avg_of t ≤ rt → 139 ≤ n → (avg_of t' ≤ rt) × (rt ≤ avg_of t' + 15))
  Stops-settle {n = n} {t = t} {t' = t'} small stops = (from_above, from_below)
    where
      from_above : rt ≤ avg_of t → 37 ≤ n → (rt ≤ avg_of t') × (avg_of t' ≤ rt + 3)
      from_above above long =
          let s = Stops-fall stops above in
          (
            s.0,
            omega (
              arith,
              s.1,
              fallen n (avg_of t - rt) long (ground (arith, extract_avg_rt-lt t.deficit_avg_fused)),
            ),
          )

      from_below : avg_of t ≤ rt → 139 ≤ n → (avg_of t' ≤ rt) × (rt ≤ avg_of t' + 15)
      from_below below long =
          let s = Stops-rise small stops below in
          (s.0, omega (arith, s.1, risen n (rt - avg_of t) long (omega (arith, small))))

-- An average inside a tier, by the gates that are hardest to pass.
classify_inside :
    (u i avg : ℕ)
    → i < 4
    → (i < 3 → avg < tier_gate_promote i)
    → (0 < i → tier_gate_demote (i - 1) ≤ avg)
    → classify u avg ≡ i
unfolding classify
classify_inside u zero avg h below above = ground (arith, below (omega arith))
classify_inside u (suc zero) avg h below above =
    ground (arith, below (omega arith), above (omega arith))
classify_inside u (suc (suc zero)) avg h below above =
    ground (arith, below (omega arith), above (omega arith))
classify_inside u (suc (suc (suc zero))) avg h below above = ground (arith, above (omega arith))
classify_inside u (suc (suc (suc (suc i)))) avg h below above = absurd (omega arith)

-- A task with a time stamp and a well-formed context at each stop, whose finished bursts all last
-- `rt` of 16 bits, and whose average changes at the stops only: after 139 stops its average is
-- classified into the tier `i`, from whatever tier, if `rt` is at least 15 above the gate by which
-- a task leaves the tier above `i` in rank, where there is one, and more than 3 below the gate by
-- which a task of a lower rank enters `i`, where `i` is not T3.
pub Stops-classify :
    (c : Rodata) (rt u i : ℕ) {n : ℕ} {t t' : TaskCtx}
    → i < 4
    → (i < 3 → rt + 3 < tier_gate_promote i)
    → (0 < i → tier_gate_demote (i - 1) + 15 ≤ rt)
    → rt < 2 ^ 16
    → Stops c rt n t t'
    → 139 ≤ n
    → classify u (avg_of t') ≡ i
Stops-classify c rt u i {t = t} {t' = t'} tier below above small stops long =
    let s = Stops-settle c rt small stops in
    let high : avg_of t' ≤ rt + 3 = elim (dec_le rt (avg_of t)) [
      | yes p ↦ (s.0 p (omega arith)).1
      | no p ↦ omega (arith, (s.1 (omega arith) long).0)
    ] in
    let low : rt ≤ avg_of t' + 15 = elim (dec_le rt (avg_of t)) [
      | yes p ↦ omega (arith, (s.0 p (omega arith)).0)
      | no p ↦ (s.1 (omega arith) long).1
    ] in
    classify_inside u i (avg_of t') tier (λ h. omega (arith, below h, high))
      (λ h. omega (arith, above h, low))

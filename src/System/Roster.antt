-- ===== src/System/Roster.antt =====
-- The context switches of a run: what a CPU that starts or stops a task does to the masks.
use scx_imperator.Common.{
  ℕ, ◌<◌, ◌≡◌, ◌≢◌, ◌∙◌, refl, sym, ap, arith, Bool, true, false, Option, none, some, ◌==◌, ==_iff,
  Bool-cases, inl, inr, update, u32,
}
use scx_imperator.Intf.{get_tier}
use scx_imperator.State.{TaskCtx, Rodata, World}
use scx_imperator.Task.Frame.{tier_of, is_stamped}
use scx_imperator.Task.Idle.{IsIdle, AllIdle}
use scx_imperator.Switch.{imperator_running, imperator_stopping, stamp_run}
use scx_imperator.Switch.Masks.{
  imperator_running-MasksExact, imperator_stopping-MasksExact, same-MasksExact,
}
use scx_imperator.Switch.Frame.{
  imperator_running-none, imperator_stopping-none, imperator_running_tasks,
  imperator_stopping_other, stamp_run_keeps,
}
use scx_imperator.System.Runs.{Roster, Rests}
use scx_imperator.System.Tiers.{tier_at, tiers_of, RosterExact}

same_some : (p q : ℕ) → some p ≡ some q → p ≡ q
same_some p q e = ground (arith, e)

module _ (c : Rodata) (w : World) (r : Roster) (e : RosterExact w r) (cpu p : ℕ)
    (hc : cpu < 64) where
  -- A CPU that starts to run a task that ran nowhere.
  started_apart :
      Rests r p
      → (i j q : ℕ) → update r cpu (some p) i ≡ some q
      → update r cpu (some p) j ≡ some q
      → i ≡ j
  unfolding Rests
  started_apart rests i j q hi hj = elim (Bool-cases (cpu == i)) [
    | inl a ↦ elim (Bool-cases (cpu == j)) [
      | inl b ↦ sym ((==_iff cpu i).0 a) ∙ (==_iff cpu j).0 b
      | inr b ↦ absurd (rests j ((rw b at hj) ∙ sym (rw a at hi)))
    ]
    | inr a ↦ elim (Bool-cases (cpu == j)) [
      | inl b ↦ absurd (rests i ((rw a at hi) ∙ sym (rw b at hj)))
      | inr b ↦ e.apart i j q (rw a at hi) (rw b at hj)
    ]
  ]

  stopped_apart : (i j q : ℕ) → update r cpu none i ≡ some q → update r cpu none j ≡ some q → i ≡ j
  stopped_apart i j q hi hj = elim (Bool-cases (cpu == i)) [
    | inl a ↦ absurd (let h = rw a at hi in ground (arith, h))
    | inr a ↦ elim (Bool-cases (cpu == j)) [
      | inl b ↦ absurd (let h = rw b at hj in ground (arith, h))
      | inr b ↦ e.apart i j q (rw a at hi) (rw b at hj)
    ]
  ]

  -- A CPU that runs another task.
  not_same : (q : ℕ) (x : Option ℕ) → x ≢ some p → x ≡ some q → (p == q) ≡ false
  not_same q x away at = elim (Bool-cases (p == q)) [
    | inl same ↦ absurd (away (at ∙ ap some (sym ((==_iff p q).0 same))))
    | inr other ↦ other
  ]

  elsewhere :
      (w' : World)
      → ((q : ℕ) → (p == q) ≡ false → w'.tasks q ≡ w.tasks q)
      → (x : Option ℕ) → x ≢ some p
      → tier_at w' x ≡ tier_at w x
  elsewhere w' others none away = refl
  elsewhere w' others (some q) away = ap tier_of (others q (not_same q (some q) away refl))

  running_others :
      (now : ℕ) (t : TaskCtx)
      → w.tasks p ≡ some t
      → (q : ℕ) → (p == q) ≡ false
      → (imperator_running c cpu now p w).tasks q ≡ w.tasks q
  running_others now t here q other =
      rw (imperator_running_tasks c cpu now p w t here) (rw other refl)

  running_self :
      (now : ℕ) (t : TaskCtx)
      → w.tasks p ≡ some t
      → (imperator_running c cpu now p w).tasks p ≡ some (stamp_run now t)
  running_self now t here = rw (imperator_running_tasks c cpu now p w t here) (ground arith)

  running_tiers :
      (now : ℕ) (t : TaskCtx)
      → w.tasks p ≡ some t
      → Rests r p
      → (i : ℕ)
      → tier_at (imperator_running c cpu now p w) (update r cpu (some p) i)
        ≡ update (tiers_of w r) cpu (some (get_tier t.packed_info)) i
  unfolding Rests
  running_tiers now t here rests i = elim (Bool-cases (cpu == i)) [
    | inl a ↦ rw a (
        ap tier_of (running_self now t here)
        ∙ ap (λ (n : ℕ). some (get_tier n)) (stamp_run_keeps now t).1)
    | inr a ↦
        rw a
          (elsewhere (imperator_running c cpu now p w) (running_others now t here) (r i) (rests i))
  ]

  running_stamped :
      (now : ℕ) (t : TaskCtx)
      → w.tasks p ≡ some t
      → Rests r p
      → u32 now ≢ 0
      → (i q : ℕ) → update r cpu (some p) i ≡ some q
      → is_stamped ((imperator_running c cpu now p w).tasks q) ≡ true
  unfolding Rests
  running_stamped now t here rests clock i q at = elim (Bool-cases (cpu == i)) [
    | inl a ↦
        let e' : p ≡ q = same_some p q (rw a at at) in
        rw (sym e') (
          ap is_stamped (running_self now t here)
          ∙ (let e'' = (stamp_run_keeps now t).0 in ground (arith, e'', clock)))
    | inr a ↦
        let at' = rw a at at in
        ap is_stamped (running_others now t here q (not_same q (r i) (rests i) at'))
        ∙ e.stamped i q at'
  ]

  running_by :
      (now : ℕ) (o : Option TaskCtx)
      → w.tasks p ≡ o
      → ((t : TaskCtx) → o ≡ some t → IsIdle t)
      → u32 now ≢ 0
      → r cpu ≡ none
      → Rests r p
      → RosterExact (imperator_running c cpu now p w) (update r cpu (some p))
  running_by now none here idle clock free rests =
      rw (imperator_running-none c cpu now p w here) (record {
        masks =
            same-MasksExact w w (tiers_of w r) (tiers_of w (update r cpu (some p))) refl
              (λ i. elim (Bool-cases (cpu == i)) [
                | inl a ↦ rw a (
                    ap tier_of here ∙ sym (ap (tier_at w) (ap r (sym ((==_iff cpu i).0 a)) ∙ free)))
                | inr a ↦ rw a refl
              ])
              e.masks;
        stamped = λ i q at. elim (Bool-cases (cpu == i)) [
          | inl a ↦ let e' : p ≡ q = same_some p q (rw a at at) in rw (sym e') (ap is_stamped here)
          | inr a ↦ e.stamped i q (rw a at at)
        ];
        apart = started_apart rests;
      })
  running_by now (some t) here idle clock free rests = record {
    masks =
        same-MasksExact (imperator_running c cpu now p w) (imperator_running c cpu now p w)
          (update (tiers_of w r) cpu (some (get_tier t.packed_info))) _ refl
          (running_tiers now t here rests)
          (imperator_running-MasksExact c w (tiers_of w r) e.masks cpu p t hc here (idle t refl).wf
            now (ap (tier_at w) free));
    stamped = running_stamped now t here rests clock;
    apart = started_apart rests;
  }

  other_cpu : r cpu ≡ some p → (i : ℕ) → (cpu == i) ≡ false → r i ≢ some p
  other_cpu held i a at = absurd (let e' = e.apart cpu i p held at in ground (arith, e', a))

  stopping_stamped :
      (runnable : Bool) (now now' : ℕ)
      → r cpu ≡ some p
      → (i q : ℕ) → update r cpu none i ≡ some q
      → is_stamped ((imperator_stopping c runnable cpu now now' p w).tasks q) ≡ true
  stopping_stamped runnable now now' held i q at = elim (Bool-cases (cpu == i)) [
    | inl a ↦ absurd (let h = rw a at at in ground (arith, h))
    | inr a ↦
        let at' = rw a at at in
        let away = not_same q (r i) (other_cpu held i a) at' in
        ap is_stamped (imperator_stopping_other c runnable cpu now now' p q w away)
        ∙ e.stamped i q at'
  ]

  stopping_by :
      (runnable : Bool) (now now' : ℕ) (o : Option TaskCtx)
      → w.tasks p ≡ o
      → ((t : TaskCtx) → o ≡ some t → IsIdle t)
      → r cpu ≡ some p
      → RosterExact (imperator_stopping c runnable cpu now now' p w) (update r cpu none)
  stopping_by runnable now now' none here idle held =
      rw (imperator_stopping-none c runnable cpu now now' p w here) (record {
        masks =
            same-MasksExact w w (tiers_of w r) (tiers_of w (update r cpu none)) refl
              (λ i. elim (Bool-cases (cpu == i)) [
                | inl a ↦ rw a (
                    sym (ap (tier_at w) (ap r (sym ((==_iff cpu i).0 a)) ∙ held) ∙ ap tier_of here))
                | inr a ↦ rw a refl
              ])
              e.masks;
        stamped = λ i q at. elim (Bool-cases (cpu == i)) [
          | inl a ↦ absurd (let h = rw a at at in ground (arith, h))
          | inr a ↦ e.stamped i q (rw a at at)
        ];
        apart = stopped_apart;
      })
  stopping_by runnable now now' (some t) here idle held = record {
    masks =
        same-MasksExact _ (imperator_stopping c runnable cpu now now' p w)
          (update (tiers_of w r) cpu none) _ refl
          (λ i. elim (Bool-cases (cpu == i)) [
            | inl a ↦ rw a refl
            | inr a ↦ rw a (
                elsewhere (imperator_stopping c runnable cpu now now' p w)
                  (λ q. imperator_stopping_other c runnable cpu now now' p q w) (r i)
                  (other_cpu held i a))
          ])
          (imperator_stopping-MasksExact c w (tiers_of w r) e.masks cpu p t hc here (idle t refl).wf
            runnable now now'
            (let h = sym (ap is_stamped here) ∙ e.stamped cpu p held in ground (arith, h))
            (ap (tier_at w) held ∙ ap tier_of here));
    stamped = stopping_stamped runnable now now' held;
    apart = stopped_apart;
  }

  pub imperator_running-RosterExact :
      (now : ℕ)
      → AllIdle w
      → u32 now ≢ 0
      → r cpu ≡ none
      → Rests r p
      → RosterExact (imperator_running c cpu now p w) (update r cpu (some p))
  unfolding AllIdle
  imperator_running-RosterExact now all = running_by now (w.tasks p) refl (all p)

  pub imperator_stopping-RosterExact :
      (runnable : Bool) (now now' : ℕ)
      → AllIdle w
      → r cpu ≡ some p
      → RosterExact (imperator_stopping c runnable cpu now now' p w) (update r cpu none)
  unfolding AllIdle
  imperator_stopping-RosterExact runnable now now' all =
      stopping_by runnable now now' (w.tasks p) refl (all p)

-- ===== src/Dispatch/Scan.antt =====
-- The loop of imperator_dispatch that builds the steal mask and finds the cheapest LLC.
use scx_imperator.Common.{
  ℕ, zero, suc, ◌+◌, ◌^◌, ◌≤◌, ◌<◌, ◌≡◌, ◌∙◌, refl, arith, Bool, true, ◌&&◌, ◌||◌, List, All, [],
  ◌∷◌, Option, none, some, Bool-cases, inl, inr, ltb, leb, ◌==◌, ==_iff, if◌then◌else◌, u32,
  bit_or-lt, pow-lt, test_bit, test_bit-bit_or, test_bit-pow,
}
use native.Mathlib.Nat.{mod-eq_of_lt}
use scx_imperator.Compat.Scan.Clear.{listed, listed_holds}
use scx_imperator.Dispatch.{Steal, consider, build}
use scx_imperator.Dispatch.Spec.{best, better_of}

pub u32-pow : (i : ℕ) → i < 32 → u32 (2 ^ i) ≡ 2 ^ i
u32-pow i h = mod-eq_of_lt (pow-lt i 32 h)

module _ (marked : ℕ → Bool) (cost : ℕ → ℕ) where
  consider_bit :
      (i : ℕ) (s : Steal) (j : ℕ)
      → i < 32
      → test_bit (consider marked cost i s).mask j ≡ (test_bit s.mask j || marked i && (i == j))
  unfolding consider
  consider_bit i s j h =
      ground (arith, u32-pow i h, test_bit-bit_or s.mask (2 ^ i) j, test_bit-pow i j)

  consider_fits :
      (i : ℕ) (s : Steal) → i < 32 → s.mask < 2 ^ 32 → (consider marked cost i s).mask < 2 ^ 32
  unfolding consider
  consider_fits i s h fits =
      ground (arith, u32-pow i h, bit_or-lt 32 s.mask (2 ^ i) fits (pow-lt i 32 h))

  same_mark : (i j : ℕ) → (marked i && (i == j)) ≡ (marked j && (i == j))
  same_mark i j = elim (Bool-cases (i == j)) [
    | inl e ↦ let e' : i ≡ j = (==_iff i j).0 e in rw e' refl
    | inr e ↦ ground (arith, e)
  ]

  pub build_bit :
      (left i : ℕ) (s : Steal) (j : ℕ)
      → i + left ≤ 32
      → test_bit (build marked cost left i s).mask j
        ≡ (test_bit s.mask j || leb i j && ltb j (i + left) && marked j)
  unfolding build
  build_bit zero i s j h = ground arith
  build_bit (suc left) i s j h = ground (
    arith,
    build_bit left (i + 1) (consider marked cost i s) j (omega arith),
    consider_bit i s j (omega arith),
    same_mark i j,
  )

  pub build_fits :
      (left i : ℕ) (s : Steal)
      → i + left ≤ 32
      → s.mask < 2 ^ 32
      → (build marked cost left i s).mask < 2 ^ 32
  unfolding build
  build_fits zero i s h fits = fits
  build_fits (suc left) i s h fits =
      build_fits left (i + 1) (consider marked cost i s) (omega arith)
        (consider_fits i s (omega arith) fits)

  -- The candidate so far, against the best of those still to come.
  unfoldable pub merged : Option ℕ → ℕ → ℕ → ℕ
  merged none c m = c
  merged (some x) c m = if (m == 0) || ltb (cost x) m then x else c

  unfoldable pub merged_cost : Option ℕ → ℕ → ℕ
  merged_cost none m = m
  merged_cost (some x) m = if (m == 0) || ltb (cost x) m then cost x else m

  -- What holds of the LLC that is found, if one is.
  unfoldable pub Of : (ℕ → Type 0) → Option ℕ → Type 0
  Of P none = Unit
  Of P (some x) = P x × (0 < cost x)

  better_of-Of :
      (P : ℕ → Type 0) (x : ℕ) (rest : Option ℕ) → P x → Of P rest → Of P (better_of cost x rest)
  unfolding better_of Of
  better_of-Of P x none px h = elim (Bool-cases (cost x == 0)) [
    | inl e ↦ rw e tt
    | inr e ↦ rw e (px, ground arith)
  ]
  better_of-Of P x (some y) px h = elim (Bool-cases ((cost x == 0) || ltb (cost y) (cost x))) [
    | inl e ↦ rw e h
    | inr e ↦ rw e (px, ground arith)
  ]

  pub best-Of : (P : ℕ → Type 0) (xs : List ℕ) → All P xs → Of P (best cost xs)
  unfolding best Of
  best-Of P [] all = tt
  best-Of P (x ∷ xs) all = better_of-Of P x (best cost xs) all.0 (best-Of P xs all.1)

  -- An LLC that is found is one of those that are marked.
  pub best-listed :
      (n i : ℕ) → Of (λ j. (marked j ≡ true) × (j < i + n)) (best cost (listed marked n i))
  best-listed n i =
      best-Of (λ j. (marked j ≡ true) × (j < i + n)) (listed marked n i) (listed_holds marked n i)

  merged-better_of :
      (P : ℕ → Type 0) (x : ℕ) (rest : Option ℕ) (c m : ℕ)
      → Of P rest
      → (merged rest
            (if ltb 0 (cost x) && ((m == 0) || ltb (cost x) m) then x else c)
            (if ltb 0 (cost x) && ((m == 0) || ltb (cost x) m) then cost x else m)
          ≡ merged (better_of cost x rest) c m)
        × (merged_cost rest (if ltb 0 (cost x) && ((m == 0) || ltb (cost x) m) then cost x else m)
            ≡ merged_cost (better_of cost x rest) m)
  unfolding merged merged_cost better_of Of
  merged-better_of P x none c m h = (ground arith, ground arith)
  merged-better_of P x (some y) c m h = (ground arith, ground arith)

  anything : (xs : List ℕ) → All (λ j. Unit {0}) xs
  anything [] = tt
  anything (x ∷ xs) = (tt, anything xs)

  consider-merged :
      (P : ℕ → Type 0) (i : ℕ) (xs : List ℕ) (s : Steal)
      → P i
      → All P xs
      → (merged
            (best cost xs)
            (consider marked cost i s).cheapest
            (consider marked cost i s).min_cost
          ≡ merged (best cost (if marked i then i ∷ xs else xs)) s.cheapest s.min_cost)
        × (merged_cost (best cost xs) (consider marked cost i s).min_cost
            ≡ merged_cost (best cost (if marked i then i ∷ xs else xs)) s.min_cost)
  unfolding consider best
  consider-merged P i xs s pi all = elim (Bool-cases (marked i)) [
    | inl e ↦ rw e (merged-better_of P i (best cost xs) s.cheapest s.min_cost (best-Of P xs all))
    | inr e ↦ rw e (refl, refl)
  ]

  pub build-merged :
      (left i : ℕ) (s : Steal)
      → ((build marked cost left i s).cheapest
          ≡ merged (best cost (listed marked left i)) s.cheapest s.min_cost)
        × ((build marked cost left i s).min_cost
            ≡ merged_cost (best cost (listed marked left i)) s.min_cost)
  unfolding build best listed merged merged_cost
  build-merged zero i s = (refl, refl)
  build-merged (suc left) i s =
      let ih = build-merged left (i + 1) (consider marked cost i s) in
      let step =
        consider-merged (λ j. Unit {0}) i (listed marked left (i + 1)) s tt
          (anything (listed marked left (i + 1))) in
      (ih.0 ∙ step.0, ih.1 ∙ step.1)

-- ===== src/Intf/Laws.antt =====
-- Reads of `packed_info` after writes: each write changes its own fields and no others.
use scx_imperator.Common.{ℕ, ◌^◌, ◌<◌, ◌≡◌, arith, Bool, true, false, ◌||◌, ◌&&◌, not}
use scx_imperator.Intf.{
  FlowFlag, flow_new, lock_holder, irq_wake, get_tier, get_stable, has_flag, set_flag, clear_flag,
  put_stable_tier, reset_stable, put_tier,
}
use scx_imperator.Intf.Packed.{
  get_tier-arith, get_stable-arith, has_flag-arith, set_flag-arith, clear_flag-arith,
  put_stable_tier-arith, reset_stable-arith, put_tier-arith,
}

abbrev pub same_flag : FlowFlag → FlowFlag → Bool
same_flag flow_new flow_new = true
same_flag lock_holder lock_holder = true
same_flag irq_wake irq_wake = true
same_flag _ _ = false

pub get_tier-lt : (p : ℕ) → p < 2 ^ 32 → get_tier p < 4
get_tier-lt p h = omega (arith, get_tier-arith p h)

pub get_stable-lt : (p : ℕ) → get_stable p < 4
get_stable-lt p = omega (arith, get_stable-arith p)

pub set_flag-lt : (f : FlowFlag) (p : ℕ) → p < 2 ^ 32 → set_flag f p < 2 ^ 32
set_flag-lt flow_new p h = omega (arith, set_flag-arith flow_new p)
set_flag-lt f p h = omega (arith, set_flag-arith f p)

pub clear_flag-lt : (f : FlowFlag) (p : ℕ) → p < 2 ^ 32 → clear_flag f p < 2 ^ 32
clear_flag-lt f p h = omega (arith, clear_flag-arith f p h)

pub put_stable_tier-lt : (s t p : ℕ) → s < 4 → t < 4 → put_stable_tier s t p < 2 ^ 32
put_stable_tier-lt s t p hs ht = omega (arith, put_stable_tier-arith s t p hs ht)

pub put_tier-lt : (t p : ℕ) → t < 4 → p < 2 ^ 32 → put_tier t p < 2 ^ 32
put_tier-lt t p ht h = omega (arith, put_tier-arith t p ht h)

pub reset_stable-lt : (p : ℕ) → reset_stable p < 2 ^ 32
reset_stable-lt p = omega (arith, reset_stable-arith p)

-- The tier and the stability counter are not touched by flags.
pub get_tier-set_flag : (f : FlowFlag) (p : ℕ) → p < 2 ^ 32 → get_tier (set_flag f p) ≡ get_tier p
get_tier-set_flag flow_new p h = omega (
  arith,
  set_flag-arith flow_new p,
  get_tier-arith p h,
  get_tier-arith (set_flag flow_new p) (set_flag-lt flow_new p h),
)
get_tier-set_flag f p h = omega (
  arith,
  set_flag-arith f p,
  get_tier-arith p h,
  get_tier-arith (set_flag f p) (set_flag-lt f p h),
)

pub get_tier-clear_flag :
    (f : FlowFlag) (p : ℕ) → p < 2 ^ 32 → get_tier (clear_flag f p) ≡ get_tier p
get_tier-clear_flag flow_new p h = omega (
  arith,
  clear_flag-arith flow_new p h,
  get_tier-arith p h,
  get_tier-arith (clear_flag flow_new p) (clear_flag-lt flow_new p h),
)
get_tier-clear_flag f p h = omega (
  arith,
  clear_flag-arith f p h,
  get_tier-arith p h,
  get_tier-arith (clear_flag f p) (clear_flag-lt f p h),
)

pub get_stable-set_flag :
    (f : FlowFlag) (p : ℕ) → p < 2 ^ 32 → get_stable (set_flag f p) ≡ get_stable p
get_stable-set_flag flow_new p h =
    omega
      (arith, set_flag-arith flow_new p, get_stable-arith p, get_stable-arith (set_flag flow_new p))
get_stable-set_flag f p h =
    omega (arith, set_flag-arith f p, get_stable-arith p, get_stable-arith (set_flag f p))

pub get_stable-clear_flag :
    (f : FlowFlag) (p : ℕ) → p < 2 ^ 32 → get_stable (clear_flag f p) ≡ get_stable p
get_stable-clear_flag flow_new p h = omega (
  arith,
  clear_flag-arith flow_new p h,
  get_stable-arith p,
  get_stable-arith (clear_flag flow_new p),
)
get_stable-clear_flag f p h =
    omega (arith, clear_flag-arith f p h, get_stable-arith p, get_stable-arith (clear_flag f p))

-- A write of one flag is seen there, and at no other flag.
pub has_flag-set_flag :
    (f g : FlowFlag) (p : ℕ)
    → p < 2 ^ 32
    → has_flag g (set_flag f p) ≡ (same_flag f g || has_flag g p)
has_flag-set_flag flow_new flow_new p h =
    ground (arith, set_flag-arith flow_new p, has_flag-arith flow_new (set_flag flow_new p))
has_flag-set_flag f g p h =
    ground (arith, set_flag-arith f p, has_flag-arith g (set_flag f p), has_flag-arith g p)

pub has_flag-clear_flag :
    (f g : FlowFlag) (p : ℕ)
    → p < 2 ^ 32
    → has_flag g (clear_flag f p) ≡ (not (same_flag f g) && has_flag g p)
has_flag-clear_flag flow_new flow_new p h =
    ground (arith, clear_flag-arith flow_new p h, has_flag-arith flow_new (clear_flag flow_new p))
has_flag-clear_flag f g p h =
    ground (arith, clear_flag-arith f p h, has_flag-arith g (clear_flag f p), has_flag-arith g p)

-- Writes of the tier and the stability counter leave the flags alone.
module _ (s t p : ℕ) (hs : s < 4) (ht : t < 4) where
  pub get_tier-put_stable_tier : get_tier (put_stable_tier s t p) ≡ t
  get_tier-put_stable_tier = omega (
    arith,
    put_stable_tier-arith s t p hs ht,
    get_tier-arith (put_stable_tier s t p) (put_stable_tier-lt s t p hs ht),
  )

  pub get_stable-put_stable_tier : get_stable (put_stable_tier s t p) ≡ s
  get_stable-put_stable_tier =
      omega (arith, put_stable_tier-arith s t p hs ht, get_stable-arith (put_stable_tier s t p))

  pub has_flag-put_stable_tier : (f : FlowFlag) → has_flag f (put_stable_tier s t p) ≡ has_flag f p
  has_flag-put_stable_tier flow_new = ground (
    arith,
    put_stable_tier-arith s t p hs ht,
    has_flag-arith flow_new p,
    has_flag-arith flow_new (put_stable_tier s t p),
  )
  has_flag-put_stable_tier f = ground (
    arith,
    put_stable_tier-arith s t p hs ht,
    has_flag-arith f p,
    has_flag-arith f (put_stable_tier s t p),
  )

module _ (t p : ℕ) (ht : t < 4) (h : p < 2 ^ 32) where
  pub get_tier-put_tier : get_tier (put_tier t p) ≡ t
  get_tier-put_tier =
      omega (arith, put_tier-arith t p ht h, get_tier-arith (put_tier t p) (put_tier-lt t p ht h))

  pub get_stable-put_tier : get_stable (put_tier t p) ≡ get_stable p
  get_stable-put_tier =
      omega (arith, put_tier-arith t p ht h, get_stable-arith p, get_stable-arith (put_tier t p))

  pub has_flag-put_tier : (f : FlowFlag) → has_flag f (put_tier t p) ≡ has_flag f p
  has_flag-put_tier flow_new = ground (
    arith,
    put_tier-arith t p ht h,
    has_flag-arith flow_new p,
    has_flag-arith flow_new (put_tier t p),
  )
  has_flag-put_tier f =
      ground (arith, put_tier-arith t p ht h, has_flag-arith f p, has_flag-arith f (put_tier t p))

module _ (p : ℕ) (h : p < 2 ^ 32) where
  pub get_tier-reset_stable : get_tier (reset_stable p) ≡ get_tier p
  get_tier-reset_stable = omega (
    arith,
    reset_stable-arith p,
    get_tier-arith p h,
    get_tier-arith (reset_stable p) (reset_stable-lt p),
  )

  pub get_stable-reset_stable : get_stable (reset_stable p) ≡ 0
  get_stable-reset_stable = omega (arith, reset_stable-arith p, get_stable-arith (reset_stable p))

-- ===== src/Common.antt =====
-- The names that every module shares: the libraries', passed on, the Boolean tests, the casts and
-- shifts of C, and the laws of its bit operations.
mod Tests
mod Words
mod Bits
mod Masks
mod Int
mod Lists
pub use Tests.*
pub use Words.*
pub use Bits.*
unfoldable pub use Masks.*
pub use Int.*
pub use Lists.*
pub use Prim.Native.Nat.{ℕ, zero, suc, ◌+◌, ◌-◌, ◌*◌, ◌/◌, ◌%◌, ◌^◌, ◌≤◌, ◌<◌, bit_and, bit_or}
pub use mathlib.Core.Path.{◌≡◌, refl, sym, ap, ◌∙◌, subst}
pub use mathlib.Core.Logic.{◌≢◌, ◌↔◌, ◌⊎◌, inl, inr}
pub use mathlib.Core.Bool.{Bool, true, false, not, ◌&&◌, ◌||◌}
pub use mathlib.Core.Option.{Option, none, some}
pub use mathlib.Core.List.{List, [], ◌∷◌, ◌++◌}
pub use native.Mathlib.Omega.{arith}

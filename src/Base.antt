-- ===== src/Base.antt =====
-- The names that the development shares: the libraries', passed on, and those of the children.
mod Tests
mod Lists
mod Int
mod Bits
mod Digits
mod Xor
mod Text
mod Chain
pub use Tests.*
pub use Lists.*
pub use Digits.*
pub use Xor.*
pub use Text.*
pub use Chain.*
unfoldable pub use Int.*
unfoldable pub use Bits.*
pub use Prim.Native.Nat.{
  ℕ, zero, suc, ◌+◌, ◌-◌, ◌*◌, ◌/◌, ◌%◌, ◌^◌, ◌≤◌, ◌<◌, bit_and, bit_or, bit_xor, max,
}
pub use mathlib.Core.Path.{◌≡◌, refl, sym, ap, ◌∙◌}
pub use mathlib.Core.Logic.{◌≢◌, ◌↔◌, ◌⊎◌, inl, inr}
pub use mathlib.Core.Bool.{Bool, true, false, ◌&&◌, ◌||◌, not}
pub use mathlib.Core.Option.{Option, none, some}
pub use mathlib.Core.List.{List, [], ◌∷◌, ◌++◌}
pub use native.Mathlib.Omega.{arith}

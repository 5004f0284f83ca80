-- ===== src/Prelude.antt =====
-- The names that the other modules share: the libraries', passed on, the Boolean tests on native
-- numbers (Tests), arrays as lists (Lists), loops that search or count (Search), machine words (Words),
-- laws of `|` (Bits), of `& 0xFF` (Masks) and of `^` (Xor), tables (Tables), windows of
-- lists (Windows) and the float interface (Floats).
mod Tests
mod Lists
mod Words
mod Floats
mod Bits
mod Tables
mod Search
mod Masks
mod Xor
mod Windows
pub use Tests.*
pub use Lists.*
pub use Words.*
pub use Floats.*
pub use Bits.*
pub use Search.*
pub use Masks.*
pub use Xor.*
pub use Windows.*
unfoldable pub use Tables.*
pub use Prim.Native.Nat.{
  ℕ, zero, suc, ◌+◌, ◌-◌, ◌*◌, ◌/◌, ◌%◌, ◌^◌, ◌≤◌, ◌<◌, bit_and, bit_or, bit_xor,
}
pub use mathlib.Core.Path.{◌≡◌, refl, sym, ap, ap₂, subst, ◌∙◌}
pub use mathlib.Core.Logic.{◌≢◌, ◌↔◌, ◌⊎◌, inl, inr}
pub use mathlib.Core.Bool.{Bool, true, false, not, ◌&&◌, ◌||◌}
pub use mathlib.Core.Option.{Option, none, some}
pub use mathlib.Core.List.{List, [], ◌∷◌, ◌++◌, map}
pub use native.Mathlib.Omega.{arith}
unfoldable pub use native.Mathlib.Decide.{dec_lt, dec_le, ℕ_discrete}

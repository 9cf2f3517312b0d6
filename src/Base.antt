-- ===== src/Base.antt =====
-- The names that all modules share: the libraries' names, passed on, with the Boolean tests, the
-- integer widths of C and the facts about bits that the components need.
pub mod Tests
pub mod Words
pub mod Buffers
pub mod Fields
pub mod Bits
pub mod Lists
pub mod Results
pub use Tests.*
pub use Words.*
pub use Buffers.*
pub use Fields.*
unfoldable pub use Bits.*
unfoldable pub use Lists.*
pub use Results.*
pub use Prim.Native.Nat.{ℕ, zero, suc, ◌+◌, ◌-◌, ◌*◌, ◌/◌, ◌%◌, ◌^◌, ◌≤◌, ◌<◌, min, max}
pub use Prim.Native.Nat.{bit_and, bit_or, bit_xor}
pub use mathlib.Core.Path.{◌≡◌, refl, sym, ap, ap₂, ◌∙◌, subst}
pub use mathlib.Core.Logic.{◌≢◌, ◌↔◌, ◌⊎◌, inl, inr}
pub use mathlib.Core.Bool.{Bool, true, false, not, ◌&&◌, ◌||◌}
pub use mathlib.Core.Option.{Option, none, some}
pub use mathlib.Core.List.{List, [], ◌∷◌, ◌++◌}
pub use native.Mathlib.Omega.{arith}

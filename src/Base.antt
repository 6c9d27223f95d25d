-- ===== src/Base.antt =====
-- The names that every other module shares: the library's, passed on, and those of the children:
-- Boolean tests, lists with native indices, the outcome of code that may fail an ASSERT, and the
-- bit operations of C on unsigned words.
mod Tests
pub mod Lists
mod Failure
pub mod Apart
pub mod Arith
pub mod Bits
pub mod Digits
pub mod Pigeonhole
pub use Tests.*
pub use Lists.*
pub use Failure.*
pub use Prim.Native.Nat.{ℕ, zero, suc, ◌+◌, ◌-◌, ◌*◌, ◌/◌, ◌%◌, ◌^◌, ◌≤◌, ◌<◌, min, max}
pub use mathlib.Core.Path.{◌≡◌, refl, sym, ap, ap₂, subst, ◌∙◌}
pub use mathlib.Core.Logic.{◌≢◌, ◌↔◌, ◌⊎◌, inl, inr}
pub use mathlib.Core.Bool.{Bool, true, false, not, ◌&&◌, ◌||◌}
pub use mathlib.Core.Option.{Option, none, some}
pub use mathlib.Core.List.{List, [], ◌∷◌, ◌++◌, map, append-nil, append_assoc}
pub use native.Mathlib.Omega.{arith}

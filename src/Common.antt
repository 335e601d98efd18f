-- ===== src/Common.antt =====
-- The names that the other modules share: numbers, lists and options of the libraries, Boolean
-- tests, the fixed-width words of Rust, and the outcome of a function that may fail or panic.
mod Tests
mod Lists
pub mod Words
pub mod Bits
pub mod Masks
pub mod Outcome
pub mod Stateful
pub mod Keeps
pub mod Slots
pub mod Window
pub use Tests.*
pub use Lists.*
pub use Prim.Native.Nat.{ℕ, zero, suc, ◌+◌, ◌-◌, ◌*◌, ◌/◌, ◌%◌, ◌^◌, ◌≤◌, ◌<◌, min, max}
pub use mathlib.Core.Path.{◌≡◌, refl, sym, ap, ap₂, ◌∙◌, fun_ext}
pub use mathlib.Core.Logic.{◌≢◌, ◌↔◌, ◌⊎◌, inl, inr}
pub use mathlib.Core.Bool.{Bool, true, false, not, ◌&&◌, ◌||◌}
pub use mathlib.Core.Option.{Option, none, some}
pub use mathlib.Core.List.{List, [], ◌∷◌, ◌++◌, map}
pub use native.Mathlib.Omega.{arith}

-- ===== src/Base.antt =====
-- What the models of all parts share: names of the libraries, Boolean tests on numbers and on texts,
-- lists measured by native numbers, sorting, and the containers of the C++ standard library.
mod Tests
mod Lists
pub mod Eq
pub mod Text
pub mod Sort
pub mod Dictionary
pub mod Words
pub mod Int64
pub mod Decimal
pub use Tests.*
pub use Lists.*
pub use Prim.Native.Nat.{ℕ, zero, suc, ◌+◌, ◌-◌, ◌*◌, ◌/◌, ◌%◌, ◌^◌, ◌≤◌, ◌<◌}
pub use mathlib.Core.Path.{◌≡◌, refl, sym, ap, ◌∙◌}
pub use mathlib.Core.Logic.{◌≢◌, ◌↔◌, ◌⊎◌, inl, inr}
pub use mathlib.Core.Bool.{Bool, true, false, not, ◌&&◌, ◌||◌}
pub use mathlib.Core.Option.{Option, none, some}
pub use mathlib.Core.List.{List, [], ◌∷◌, ◌++◌, map, Perm}
pub use native.Mathlib.Omega.{arith}

-- ===== src/Base.antt =====
-- The names that every module shares: the libraries', passed on, and those of the children:
-- tests on numbers, lists over the native numbers, signed integers, Go maps, loops, panics.
mod Tests
mod Lists
pub mod Stored
mod Int
mod Maps
mod Loops
pub mod Outcome
pub mod Dict
pub use Tests.*
pub use Lists.*
pub use Int.*
pub use Maps.*
unfoldable pub use Loops.*
pub use Outcome.*
pub use Prim.Native.Nat.{ℕ, zero, suc, Ordering, ◌+◌, ◌-◌, ◌*◌, ◌/◌, ◌%◌, ◌^◌, ◌≤◌, ◌<◌}
pub use mathlib.Core.Path.{◌≡◌, refl, sym, subst, ap, ◌∙◌}
pub use mathlib.Core.Logic.{◌≢◌, ◌↔◌, ◌⊎◌, inl, inr}
pub use mathlib.Core.Bool.{Bool, true, false, not, ◌&&◌, ◌||◌}
pub use mathlib.Core.Option.{Option, none, some}
pub use mathlib.Core.List.{List, [], ◌∷◌, ◌++◌, map}
pub use native.Mathlib.Omega.{arith}

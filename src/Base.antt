-- ===== src/Base.antt =====
-- Names that every module shares: the libraries' names passed on, Boolean tests, lists over the
-- native numbers, byte strings as Go's strings and slices have them, and results with an error.
mod Tests
mod Lists
mod Results
mod Text
mod Trim
pub mod Rows
pub mod Paths
pub mod Order
pub mod Decimal
pub mod Assoc
pub use Tests.*
pub use Lists.*
pub use Results.*
pub use Text.*
pub use Trim.*
pub use Prim.Native.Nat.{ℕ, zero, suc, ◌+◌, ◌-◌, ◌*◌, ◌/◌, ◌%◌, ◌^◌, ◌≤◌, ◌<◌, min, max}
pub use Prim.Native.String.{String}
pub use mathlib.Core.Path.{◌≡◌, refl, sym, ap, ◌∙◌, subst}
pub use mathlib.Core.Logic.{◌≢◌, ◌↔◌, ◌⊎◌, inl, inr}
pub use mathlib.Core.Bool.{Bool, true, false, not, ◌&&◌, ◌||◌}
pub use mathlib.Core.Option.{Option, none, some}
pub use mathlib.Core.List.{List, [], ◌∷◌, ◌++◌, map, append_assoc, append-nil}
pub use native.Mathlib.Omega.{arith}

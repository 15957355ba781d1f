-- ===== src/Base.antt =====
-- The names that all modules share: library names passed on, Boolean tests and the conditional,
-- lists measured by native numbers, machine integers, and bytes.
mod Tests
mod Lists
mod Machine
mod Text
mod Decimal
mod Commands
pub use Tests.*
unfoldable pub use Lists.*
unfoldable pub use Machine.*
unfoldable pub use Decimal.*
unfoldable pub use Text.*
unfoldable pub use Commands.*
pub use Prim.Native.Nat.{ℕ, zero, suc, ◌+◌, ◌-◌, ◌*◌, ◌/◌, ◌%◌, ◌^◌, ◌≤◌, ◌<◌}
pub use mathlib.Core.Path.{◌≡◌, refl, sym, ap, ◌∙◌, subst}
pub use mathlib.Core.Logic.{◌≢◌, ◌↔◌, ◌⊎◌, inl, inr}
pub use mathlib.Core.Bool.{Bool, true, false, not, ◌&&◌, ◌||◌}
pub use mathlib.Core.Option.{Option, none, some}
pub use mathlib.Core.List.{List, [], ◌∷◌, ◌++◌, map, append_assoc, append-nil}
pub use native.Mathlib.Omega.{arith}

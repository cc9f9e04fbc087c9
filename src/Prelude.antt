-- ===== src/Prelude.antt =====
-- The names that the other modules share: those of the libraries, passed on, the tests on numbers,
-- lists measured by native numbers, and signed settings.
mod Tests
mod Lists
mod Settings
pub mod Dict
mod Text
mod Options
pub use Tests.*
pub use Lists.*
unfoldable pub use Text.*
pub use Settings.*
pub use Options.*
pub use Prim.Native.Nat.{ℕ, zero, suc, ◌+◌, ◌-◌, ◌*◌, ◌/◌, ◌%◌, ◌≤◌, ◌<◌, min, max}
pub use mathlib.Core.Path.{◌≡◌, refl, sym, ap, ◌∙◌}
pub use mathlib.Core.Logic.{◌≢◌, ◌↔◌, ◌⊎◌, inl, inr}
pub use mathlib.Core.Bool.{Bool, true, false, not, ◌&&◌, ◌||◌}
pub use mathlib.Core.Option.{Option, none, some}
pub use mathlib.Core.List.{List, [], ◌∷◌, ◌++◌, map}
pub use native.Mathlib.Omega.{arith}

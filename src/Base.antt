-- ===== src/Base.antt =====
-- Names that all other modules share: the libraries', passed on, Boolean tests on numbers, tables
-- of rows as the repositories query them, and the monad in which the service functions are written.
mod Tests
mod Rows
pub mod Sort
pub mod Table
pub mod Action
pub use Tests.*
pub use Rows.*
unfoldable pub use Rows.{find, select, count_if, update_first, update_all, all, any}
pub use Prim.Native.Nat.{ℕ, zero, suc, ◌+◌, ◌-◌, ◌*◌, ◌≤◌, ◌<◌}
pub use Prim.Native.String.{String}
pub use mathlib.Core.Path.{◌≡◌, refl, sym, ap, ◌∙◌}
pub use mathlib.Core.Logic.{◌≢◌, ◌↔◌, ◌⊎◌, inl, inr}
pub use mathlib.Core.Bool.{Bool, true, false, not, ◌&&◌, ◌||◌}
pub use mathlib.Core.Option.{Option, none, some}
pub use mathlib.Core.List.{List, [], ◌∷◌, ◌++◌, map}
pub use native.Mathlib.Omega.{arith}

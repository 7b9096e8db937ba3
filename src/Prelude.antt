-- ===== src/Prelude.antt =====
-- The names that all modules share: library names passed on, Boolean tests on the native numbers
-- (child Tests) and the list functions that stand for SQL clauses and Python built-ins (child Rows),
-- whitespace (child Text), sorting (child Sorting) and integers (child Integers).
mod Tests
mod Rows
mod Text
mod Sorting
mod Integers
unfoldable pub use Tests.*
unfoldable pub use Rows.*
unfoldable pub use Text.*
unfoldable pub use Sorting.*
unfoldable pub use Integers.*
pub use Prim.Native.Nat.{ℕ, zero, suc, ◌+◌, ◌-◌, ◌*◌, ◌/◌, ◌%◌, ◌≤◌, ◌<◌, max, Ordering, compare}
pub use Prim.Native.String.{String}
pub use mathlib.Core.Path.{subst, ◌≡◌, refl, sym, ap, ◌∙◌}
pub use mathlib.Core.Logic.{◌≢◌, ◌↔◌, ◌⊎◌, inl, inr}
pub use mathlib.Core.Bool.{Bool, true, false, ◌&&◌, ◌||◌, not}
pub use mathlib.Core.Option.{Option, none, some}
pub use mathlib.Core.List.{List, [], ◌∷◌, ◌++◌, map}
pub use native.Mathlib.Omega.{arith}
pub use text.Mathlib.Text.{◌==◌ as str_eq}
pub use text.Mathlib.TextEquality.{eq_iff}

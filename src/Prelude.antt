-- ===== src/Prelude.antt =====
-- The names that all modules share: the libraries' names passed on, and four children: Boolean
-- tests, lists as arrays, runs that may fault, and loops that skip over an array.
mod Tests
mod Lists
mod Runs
mod Loops
pub use Tests.*
pub use Lists.*
pub use Runs.*
pub use Loops.*
unfoldable pub use Runs.{load}
unfoldable pub use Loops.{advance}
pub use Prim.Native.Nat.{ℕ, zero, suc, ◌+◌, ◌-◌, ◌*◌, ◌/◌, ◌%◌, ◌^◌, ◌≤◌, ◌<◌}
pub use mathlib.Core.Path.{◌≡◌, refl, sym, ap, ◌∙◌}
pub use mathlib.Core.Logic.{◌≢◌, ◌↔◌, ◌⊎◌, inl, inr}
pub use mathlib.Core.Bool.{Bool, true, false, not, ◌&&◌, ◌||◌}
pub use mathlib.Core.Option.{Option, none, some}
pub use mathlib.Core.List.{List, [], ◌∷◌, ◌++◌, map}
pub use native.Mathlib.Omega.{arith}

-- ===== src/Prelude.antt =====
-- Names that every module shares: the libraries', passed on, tests on numbers and texts, and the
-- table operations that stand for the SQL statements of internal/adapter/postgres.
mod Tests
mod Tables
pub mod Rows
pub use Tests.*
pub use Tables.*
pub use Prim.Native.Nat.{ℕ, zero, suc, ◌+◌, ◌-◌, ◌*◌, ◌≤◌, ◌<◌}
pub use Prim.Native.String.{String, len, ◌++◌ as concat}
pub use mathlib.Core.Path.{◌≡◌, refl, sym, ap, subst, ◌∙◌}
pub use mathlib.Core.Logic.{◌≢◌, ◌↔◌, ◌⊎◌, inl, inr}
pub use mathlib.Core.Bool.{Bool, true, false, not, ◌&&◌, ◌||◌}
pub use mathlib.Core.Option.{Option, none, some}
pub use mathlib.Core.List.{List, [], ◌∷◌, ◌++◌, map}
pub use native.Mathlib.Omega.{arith}
pub use text.Mathlib.Text.{◌==◌, starts_with}
pub use text.Mathlib.TextEquality.{eq_iff}

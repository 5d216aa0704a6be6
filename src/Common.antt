-- ===== src/Common.antt =====
-- The names that every module shares: the libraries' names passed on, tests on numbers, decisions
-- as Booleans, and the ordered maps and sets that stand for the source's `BTreeMap`, `BTreeSet`.
mod Tests
pub mod Lists
pub mod Maps
pub mod Result
pub mod Exec
pub mod Returns
unfoldable pub use Tests.{Bool-cases, eqb}
pub use Tests.*
pub use Prim.Native.Nat.{ℕ, zero, suc, ◌+◌, ◌-◌, ◌*◌, ◌%◌, ◌^◌, ◌≤◌, ◌<◌, max}
pub use Prim.Native.String.{String}
pub use mathlib.Core.Path.{◌≡◌, refl, sym, ap, ◌∙◌, subst}
pub use mathlib.Core.Logic.{◌≢◌, ◌↔◌, ◌⊎◌, inl, inr}
pub use mathlib.Core.Bool.{Bool, true, false, not, ◌&&◌, ◌||◌}
pub use mathlib.Core.Option.{Option, none, some}
pub use mathlib.Core.List.{List, [], ◌∷◌, ◌++◌, map}
pub use native.Mathlib.Omega.{arith}
unfoldable pub use native.Mathlib.Decide.{ℕ_discrete}

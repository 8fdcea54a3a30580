-- ===== src/Base.antt =====
-- Names that all modules share: the libraries', passed on, tests, lists, dicts and JSON values.
mod Tests
pub mod Lists
pub mod Dict
pub mod Json
pub mod Sort
pub mod Text
unfoldable pub use Tests.*
pub use Prim.Native.Nat.{ℕ, zero, suc, ◌+◌, ◌-◌, ◌*◌, ◌≤◌, ◌<◌}
pub use Prim.Native.String.{String, ◌++◌ as ◌<>◌}
pub use mathlib.Core.Path.{◌≡◌, refl, sym, ap, ◌∙◌, subst, subst₂}
pub use mathlib.Core.Logic.{◌≢◌, ◌↔◌, ◌⊎◌, inl, inr}
pub use mathlib.Core.Bool.{Bool, true, false, not, ◌&&◌, ◌||◌}
pub use mathlib.Core.Option.{Option, none, some}
pub use mathlib.Core.List.{List, [], ◌∷◌, ◌++◌, map, filter}
pub use native.Mathlib.Omega.{arith}
pub use text.Mathlib.Text.{starts_with}

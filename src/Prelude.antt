-- ===== src/Prelude.antt =====
-- The names that the modules share: the libraries', passed on, and those of the children.
mod Tests
mod Lists
mod Assoc
pub mod Int
pub mod Text
pub use Tests.*
pub use Lists.*
unfoldable pub use Assoc.{lookup, insert, remove}
pub use Assoc.{lookup-insert, lookup-remove, lookup-insert_cases, lookup-insert_self, text_eq_refl}
pub use Prim.Native.Nat.{ℕ, zero, suc, ◌+◌, ◌-◌, ◌*◌, ◌/◌, ◌%◌, ◌^◌, ◌≤◌, ◌<◌}
pub use Prim.Native.String.{String}
pub use mathlib.Core.Path.{◌≡◌, refl, sym, ap, ◌∙◌, subst}
pub use mathlib.Core.Logic.{◌≢◌, ◌↔◌, ◌⊎◌, inl, inr}
pub use mathlib.Core.Bool.{Bool, true, false, not, ◌&&◌, ◌||◌}
pub use mathlib.Core.Option.{Option, none, some}
pub use mathlib.Core.List.{List, [], ◌∷◌, ◌++◌, map, reverse}
pub use native.Mathlib.Omega.{arith}
pub use text.Mathlib.TextEquality.{eq_iff}

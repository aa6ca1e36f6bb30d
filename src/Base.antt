-- ===== src/Base.antt =====
-- The names that the other modules share: the libraries', passed on, and those of the children.
mod Tests
mod Equality
mod HashMap
mod Lists
mod Ascending
mod Text
mod Integers
mod Parse
mod Ascii
unfoldable pub use Tests.*
pub use Equality.*
pub use HashMap.*
unfoldable pub use Lists.*
unfoldable pub use Ascending.*
unfoldable pub use Text.*
unfoldable pub use Integers.*
unfoldable pub use Parse.*
unfoldable pub use Ascii.*
pub use Parse.Decimal.*
pub use Parse.Plain.*
pub use Parse.Digits.*
pub use Prim.Native.Nat.{ℕ, zero, suc, ◌+◌, ◌-◌, ◌*◌, ◌/◌, ◌%◌, ◌^◌, ◌≤◌, ◌<◌, min, max}
pub use Prim.Native.String.{String}
pub use mathlib.Core.Path.{◌≡◌, refl, sym, ap, subst, ◌∙◌}
pub use mathlib.Core.Logic.{◌≢◌, ◌↔◌, ◌⊎◌, inl, inr}
pub use mathlib.Core.Bool.{Bool, true, false, not, ◌&&◌, ◌||◌}
pub use mathlib.Core.Option.{Option, none, some}
pub use mathlib.Core.List.{List, [], ◌∷◌, ◌++◌, map}
pub use text.Mathlib.TextEquality.{eq_iff}
pub use native.Mathlib.Omega.{arith}

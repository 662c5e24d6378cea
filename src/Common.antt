-- ===== src/Common.antt =====
-- What every module of this library shares: the names of the mounted libraries, Boolean tests,
-- equality as an interface, lists over the native numbers, and text.
mod Tests
mod Equality
mod Lists
mod Text
mod Objects
pub mod Result
pub mod Json
pub use Tests.*
pub use Equality.*
pub use Lists.*
unfoldable pub use Text.{trim, parse_int, show_nat}
pub use Text.*
unfoldable pub use Objects.{inherited, value, put}
pub use Objects.*
pub use Prim.Native.Nat.{ℕ, zero, suc, ◌+◌, ◌-◌, ◌*◌, ◌/◌, ◌%◌, ◌≤◌, ◌<◌, max, min}
pub use Prim.Native.String.{String}
pub use mathlib.Core.Path.{◌≡◌, refl, sym, subst, ap, ap₂, ◌∙◌, ◌≡⟨◌⟩◌, ◌∎}
pub use mathlib.Core.Logic.{◌≢◌, ◌↔◌, ◌⊎◌, inl, inr}
pub use mathlib.Core.Bool.{Bool, true, false, not, ◌&&◌, ◌||◌}
pub use mathlib.Core.Option.{Option, none, some}
pub use mathlib.Core.List.{List, [], ◌∷◌, ◌++◌, map}
pub use native.Mathlib.Omega.{arith}

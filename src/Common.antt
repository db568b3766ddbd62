-- ===== src/Common.antt =====
-- The names that all modules share: the libraries', passed on, and those of the children, which
-- model the parts of Go's language and standard library that the panel uses.
mod Tests
mod Lists
mod Int
mod Text
mod Assoc
mod Fallible
mod Ip
mod Trim
mod Encode
mod Numerals
unfoldable pub use Tests.*
unfoldable pub use Lists.*
unfoldable pub use Int.*
unfoldable pub use Text.*
unfoldable pub use Assoc.*
unfoldable pub use Ip.*
unfoldable pub use Trim.*
unfoldable pub use Encode.*
unfoldable pub use Numerals.*
unfoldable pub use Fallible.*
pub use Prim.Native.Nat.{ℕ, zero, suc, ◌+◌, ◌-◌, ◌*◌, ◌/◌, ◌%◌, ◌^◌, ◌≤◌, ◌<◌}
pub use Prim.Native.String.{String, ◌++◌ as append}
pub use mathlib.Core.Path.{◌≡◌, refl, sym, ap, ◌∙◌, subst}
pub use mathlib.Core.Logic.{◌≢◌, ◌↔◌, ◌⊎◌, inl, inr}
pub use mathlib.Core.Bool.{Bool, true, false, not, ◌&&◌, ◌||◌}
pub use mathlib.Core.Option.{Option, none, some}
pub use mathlib.Core.List.{List, [], ◌∷◌, ◌++◌, map}
pub use native.Mathlib.Omega.{arith}

-- ===== src/Common.antt =====
-- The names that the other modules share: the libraries' names, passed on, Boolean tests on the
-- native numbers, lists measured by native numbers, texts as lists of bytes and dictionaries.
mod Tests
mod Lists
pub mod Strings
pub mod Fields
pub mod Dict
pub mod Int
pub mod Clock
pub mod Numbers
pub mod Http
pub mod Ip
pub mod Net
pub use Tests.*
pub use Lists.*
unfoldable pub use Strings.{Text, codes, text_eq}
pub use Strings.{text_eq_iff, text_eq_refl, text_eq_ne}
pub use Prim.Native.Nat.{ℕ, zero, suc, ◌+◌, ◌-◌, ◌*◌, ◌/◌, ◌%◌, ◌^◌, ◌≤◌, ◌<◌}
pub use mathlib.Core.Path.{◌≡◌, refl, sym, ap, ◌∙◌, subst}
pub use mathlib.Core.Logic.{◌≢◌, ◌↔◌, ◌⊎◌, inl, inr}
pub use mathlib.Core.Bool.{Bool, true, false, not, ◌&&◌, ◌||◌}
pub use mathlib.Core.Option.{Option, none, some}
pub use mathlib.Core.List.{List, [], ◌∷◌, ◌++◌, map}
pub use native.Mathlib.Omega.{arith}

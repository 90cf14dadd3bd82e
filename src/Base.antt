-- ===== src/Base.antt =====
-- The names that the other modules share: the libraries' own, passed on, with Boolean tests,
-- lists and texts over the native numbers.
mod Tests
mod Lists
mod Texts
mod Perms
pub use Tests.*
pub use Lists.*
pub use Perms.*
pub use Texts.{Text, text, text_eq→eq, text_eq_refl, text_eq_iff}
unfoldable pub use Texts.{text_eq}
pub use Prim.Native.Nat.{ℕ, zero, suc, ◌+◌, ◌-◌, ◌*◌, ◌/◌, ◌%◌, ◌^◌, ◌≤◌, ◌<◌, min, max}
pub use mathlib.Core.Path.{◌≡◌, refl, sym, ap, ◌∙◌, subst}
pub use mathlib.Core.Logic.{◌≢◌, ◌↔◌, ◌⊎◌, inl, inr}
pub use mathlib.Core.Bool.{Bool, true, false, not, ◌&&◌, ◌||◌}
pub use mathlib.Core.Option.{Option, none, some}
pub use mathlib.Core.List.{List, [], ◌∷◌, ◌++◌, map}
pub use native.Mathlib.Omega.{arith}

-- ===== src/Base.antt =====
-- The names that every component shares: the library's, passed on, and those of the children.
pub mod Logic
pub mod Lists
pub mod Tables
pub mod Queries
pub mod Sorting
pub mod Texts
pub mod Decimal
pub use Logic.*
pub use Lists.*
pub use Tables.*
pub use Queries.*
unfoldable pub use Decimal.{show, value_from}
pub use Decimal.{
  IsDigit, value_from-append, value_from-show, show-digits, show-injective, show-nonempty,
}
unfoldable pub use Texts.{same, starts_with, contains, split}
pub use Texts.{
  Text, Bytes, text, same_refl, same_sound, same_iff, tests, cut-injective, joined, split-part,
  split-rest,
}
pub use Prim.Native.Nat.{ℕ, zero, suc, ◌+◌, ◌-◌, ◌*◌, ◌/◌, ◌%◌, ◌^◌, ◌≤◌, ◌<◌}
pub use mathlib.Core.Path.{◌≡◌, refl, sym, ap, ◌∙◌, subst}
pub use mathlib.Core.Logic.{◌≢◌, ◌↔◌, ◌⊎◌, inl, inr}
pub use mathlib.Core.Bool.{Bool, true, false, not, ◌&&◌, ◌||◌}
pub use mathlib.Core.Option.{Option, none, some}
pub use mathlib.Core.List.{List, [], ◌∷◌, ◌++◌, map, append_assoc, append-nil}
pub use native.Mathlib.Omega.{arith}

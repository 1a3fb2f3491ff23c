-- ===== src/Shared.antt =====
-- The names that the other modules share: the libraries', passed on, and those of the children
-- below. The tests on numbers, the conditional and the list helpers stand in `Basics`, text and
-- `strings.TrimSpace` in `Text`, other functions on texts in `Case` and `Split`,
-- `UPDATE … WHERE` in `Updates`, `ORDER BY` in `Sorting`, Go's signed `int` in `Int`.
mod Basics
mod Text
mod Int
mod Case
mod Split
mod Updates
mod Sorting
pub use Basics.*
unfoldable pub use Text.{trim_space, is_blank}
pub use Text.{trim_space_idem}
pub use Int.*
unfoldable pub use Case.{to_lower, trim_at, is_handle, has_digits, decimal}
unfoldable pub use Split.{split_slash}
unfoldable pub use Updates.{update_where}
unfoldable pub use Sorting.{place_by, sort_by}
pub use Sorting.{take, count-sort_by}
pub use Updates.{
  count-update_all, count-update-le, count-update_same, count-update_one, update_where_none,
}
pub use Prim.Native.Nat.{ℕ, zero, suc, ◌+◌, ◌-◌, ◌*◌, ◌/◌, ◌%◌, ◌^◌, ◌≤◌, ◌<◌}
pub use Prim.Native.String.{String}
pub use mathlib.Core.Path.{◌≡◌, refl, sym, ap, ◌∙◌, subst}
pub use mathlib.Core.Logic.{◌≢◌, ◌↔◌, ◌⊎◌, inl, inr}
pub use mathlib.Core.Bool.{Bool, true, false, not, ◌&&◌, ◌||◌}
pub use mathlib.Core.Option.{Option, none, some}
pub use mathlib.Core.List.{List, [], ◌∷◌, ◌++◌, map}
pub use native.Mathlib.Omega.{arith}
pub use text.Mathlib.Text.{◌==◌}
pub use text.Mathlib.TextEquality.{eq_iff}
pub use text.Mathlib.TextPositions.{eq_refl}

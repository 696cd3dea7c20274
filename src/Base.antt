-- ===== src/Base.antt =====
-- The names that the other modules share: the libraries', passed on, and those of the children.
mod Tests
mod Lists
mod Text
mod Errors
mod Int
mod Maps
mod Sort
pub use Tests.*
pub use Lists.*
pub use Text.{◌<>◌, codes, codes_eq, or_else, first, mem-sorted_set, before_asym}
unfoldable pub use Text.{is_blank, upper, sorted_set, before, strip}
pub use Errors.*
pub use Int.*
pub use Sort.{sort_by-perm, sort_by-ordered, length-sort_by}
unfoldable pub use Sort.{sort_by, is_ordered}
pub use Maps.{Dict, lookup-insert, lookup-nil, contains, get_or}
unfoldable pub use Maps.{lookup, insert}
pub use Prim.Native.Nat.{ℕ, zero, suc, ◌+◌, ◌-◌, ◌*◌, ◌/◌, ◌%◌, ◌≤◌, ◌<◌, min}
pub use Prim.Native.Char.{Char, code}
pub use Prim.Native.String.{String}
pub use mathlib.Core.Path.{◌≡◌, refl, sym, ap, ◌∙◌}
pub use mathlib.Core.Logic.{◌≢◌, ◌↔◌, ◌⊎◌, inl, inr}
pub use mathlib.Core.Bool.{Bool, true, false, not, ◌&&◌, ◌||◌}
pub use mathlib.Core.Option.{Option, none, some}
pub use mathlib.Core.List.{List, [], ◌∷◌, ◌++◌, map}
pub use native.Mathlib.Omega.{arith}
pub use text.Mathlib.Text.{◌==◌}
pub use text.Mathlib.TextEquality.{eq_iff}
pub use text.Mathlib.TextPositions.{eq_refl}

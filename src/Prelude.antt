-- ===== src/Prelude.antt =====
-- The names that the other modules share: the libraries', passed on, and those of the children.
mod Tests
mod Lists
mod Results
mod Assoc
mod Sort
pub use Tests.*
pub use Lists.*
pub use Results.*
unfoldable pub use Assoc.{lookup, adjust, modify, insert, remove}
pub use Assoc.{
  Map, keys, map_option, entry_or_insert, total_by, Every, Every-modify, Every-entry_or_insert,
  total_by-modify, total_by-insert, lookup-adjust, lookup-remove, lookup-insert, keys-adjust,
}
unfoldable pub use Sort.{insert_sorted, sort_by}
pub use Sort.{
  IsSorted, all-sort_by, sum_by-sort_by, sort_by-IsSorted, flip_compare, text_le, text_le_total,
}
pub use Prim.Native.Nat.{ℕ, zero, suc, ◌+◌, ◌-◌, ◌*◌, ◌^◌, ◌≤◌, ◌<◌, max}
pub use Prim.Native.String.{String, len}
pub use mathlib.Core.Path.{◌≡◌, refl, sym, ap, ◌∙◌}
pub use mathlib.Core.Logic.{◌≢◌, ◌↔◌, ◌⊎◌, inl, inr}
pub use mathlib.Core.Bool.{Bool, true, false, not, ◌&&◌, ◌||◌}
pub use mathlib.Core.Option.{Option, none, some}
pub use mathlib.Core.List.{List, [], ◌∷◌, ◌++◌, map}
pub use native.Mathlib.Omega.{arith}
pub use text.Mathlib.Text.{◌==◌ as str_eq}
pub use text.Mathlib.TextEquality.{eq_iff}
pub use text.Mathlib.TextPositions.{eq_refl}
unfoldable pub use native.Mathlib.Decide.{ℕ_discrete}

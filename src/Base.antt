-- ===== src/Base.antt =====
-- The names that the other modules share: the libraries', passed on, and those of the children.
mod Tests
mod Lists
mod Sort
mod Table
mod Members
mod Count
mod Text
pub mod Actions
pub use Tests.*
pub use Lists.{includes, max_of, length, head?, is_empty, length-append, length-map}
pub use Lists.{All, All-append, All-of, All-imp, All-zip, find_if-passes, find_if-All, find_if-none}
unfoldable pub use Lists.{find_if}
unfoldable pub use Sort.{sort}
pub use Sort.{Sorted, All-sort, sort-All, sort-Sorted, length-sort, find_if-least, map-sort}
pub use Table.{All-update_where, length-update_where, find_if-update_where, select-All}
pub use Table.{select-passes, select-update_where, select-update_where_other, select-append}
pub use Table.{Distinct, Distinct-select, find_if_unique, Distinct-update_where}
unfoldable pub use Table.{update_where, select, unique}
unfoldable pub use Text.{trim, trimmed, is_space}
pub use Text.{is_blank, given}
pub use Members.{Memᴰ-All, All-of_Memᴰ, find_if-Memᴰ, Memᴰ-update_where, find_if-only}
pub use Members.{Distinct-only, sort-Memᴰ, head?-sort, head?-sort-some}
unfoldable pub use Count.{count_above}
pub use Count.{count_above-update_where, count_above-zero, count_above-next}
pub use Prim.Native.Nat.{ℕ, zero, suc, ◌+◌, ◌-◌, ◌*◌, ◌/◌, ◌%◌, ◌≤◌, ◌<◌}
pub use Prim.Native.String.{String}
pub use mathlib.Core.Path.{◌≡◌, refl, sym, ap, subst, ◌∙◌, ◌≡⟨◌⟩◌, ◌∎}
pub use mathlib.Core.Logic.{◌≢◌, ◌↔◌, ◌⊎◌, inl, inr}
pub use mathlib.Core.Bool.{Bool, true, false, not, ◌&&◌, ◌||◌}
pub use mathlib.Core.Option.{Option, none, some}
pub use mathlib.Core.List.{List, [], ◌∷◌, ◌++◌, map, Memᴰ}
pub use native.Mathlib.Omega.{arith}

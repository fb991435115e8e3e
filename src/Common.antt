-- ===== src/Common.antt =====
-- Names that every component shares: the library's, passed on, and those of the children
-- (Boolean tests, lists measured by native numbers, Go maps, signed integers, texts, results, loops).
mod Tests
mod Lists
mod Maps
mod Index
mod Pointers
mod Signed
mod Texts
mod Results
mod Ranges
mod Distinct
mod Tags
mod Sorts
pub use Tests.*
pub use Lists.*
unfoldable pub use Maps.*
pub use Index.*
pub use Pointers.*
unfoldable pub use Signed.*
unfoldable pub use Texts.*
pub use Results.*
unfoldable pub use Ranges.*
unfoldable pub use Distinct.*
unfoldable pub use Tags.{collect_tags}
pub use Sorts.{sort-Sorted, member-sort, Sorted, In-sort_by, take-Sorted, take_first}
pub use Tags.{dropped, collect_tags-TagList, TagList}
pub use Prim.Native.Nat.{ℕ, zero, suc, ◌+◌, ◌-◌, ◌*◌, ◌/◌, ◌%◌, ◌^◌, ◌≤◌, ◌<◌}
pub use Prim.Native.String.{String}
pub use mathlib.Core.Path.{◌≡◌, refl, sym, ap, ◌∙◌, subst}
pub use mathlib.Core.Logic.{◌≢◌, ◌↔◌, ◌⊎◌, inl, inr, ite, if_pos, if_neg}
pub use mathlib.Core.Bool.{Bool, true, false, not, ◌&&◌, ◌||◌}
pub use mathlib.Core.Option.{Option, none, some}
pub use mathlib.Core.List.{List, [], ◌∷◌, ◌++◌, map}
pub use native.Mathlib.Omega.{arith}
unfoldable pub use native.Mathlib.Decide.{dec_lt, dec_le, ℕ_discrete}

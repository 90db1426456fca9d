-- ===== src/Prelude.antt =====
-- The names that the other modules share: the libraries', passed on, and those of the children.
mod Tests
mod Lists
mod Equality
mod Maps
mod NumberSets
mod Results
mod Text
pub use Text.{codes, strip_prefix, starts_with, is_empty}
unfoldable pub use Text.{trim_0x, trim_start, trim}
pub use NumberSets.{
  mem, Distinct, Subset, length-Subset, mem-append, Distinct-snoc, Subset-weaken, mem-sort,
  length-sort, IsAscending, Above, sort-IsAscending,
}
unfoldable pub use NumberSets.{insert_sorted, sort}
pub use Results.*
pub use Tests.*
pub use Lists.*
pub use Equality.{Eq, ◌=?◌, =?-refl, nat_eq, Bytes, beq_bytes, beq_bytes_iff, bytes_eq}
pub use Maps.{
  Map, values, lookup-insert, lookup-insert_self, lookup-erase_ne, lookup-erase_self,
  get_or_default, All-lookup, All-erase,
}
unfoldable pub use Maps.{lookup, insert, erase}
pub use Prim.Native.Nat.{ℕ, zero, suc, ◌+◌, ◌-◌, ◌*◌, ◌/◌, ◌%◌, ◌^◌, ◌≤◌, ◌<◌, max}
pub use mathlib.Core.Path.{◌≡◌, refl, sym, ap, ap₂, subst, subst₂, ◌∙◌}
pub use mathlib.Core.Logic.{◌≢◌, ◌↔◌, ◌⊎◌, inl, inr}
pub use mathlib.Core.Bool.{Bool, true, false, not, ◌&&◌, ◌||◌}
pub use mathlib.Core.Option.{Option, none, some}
pub use mathlib.Core.List.{List, [], ◌∷◌, ◌++◌, map, append-nil}
pub use native.Mathlib.Omega.{arith}

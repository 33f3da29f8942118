-- ===== src/Common.antt =====
-- Names shared by all modules: the library's, passed on, and those of the children: Boolean
-- tests, lists measured by native numbers, predicates over lists, exceptions as values.
mod Tests
mod Lists
mod Results
mod Sort
mod Int
pub use Tests.*
pub use Lists.*
unfoldable pub use Lists.{filter, find, any, all}
pub use Results.*
pub use Sort.*
pub use Int.*
unfoldable pub use Sort.{insert_sorted, sorted}
pub use Prim.Native.Nat.{ℕ, zero, suc, ◌+◌, ◌-◌, ◌*◌, ◌/◌, ◌%◌, ◌≤◌, ◌<◌, min, max}
pub use Prim.Native.String.{String}
pub use mathlib.Core.Path.{◌≡◌, refl, sym, ap, ◌∙◌, subst}
pub use mathlib.Core.Logic.{◌≢◌, ◌↔◌, ◌⊎◌, inl, inr}
pub use mathlib.Core.Bool.{Bool, true, false, not, ◌&&◌, ◌||◌}
pub use mathlib.Core.Option.{Option, none, some, map as map_option}
pub use mathlib.Core.List.{List, [], ◌∷◌, ◌++◌, map, reverse}
pub use native.Mathlib.Omega.{arith}

-- ===== src/Prelude.antt =====
-- The names that every other module shares: the libraries', passed on, and those of the children.
mod Tests
mod Lists
mod Maps
mod Words
mod Sorting
mod Text
mod Lower
mod Fresh
mod SortOrder
mod Rank
mod Results
mod Numbers
mod Splitting
unfoldable pub use Tests.*
pub use Lists.*
unfoldable pub use Maps.*
unfoldable pub use Words.*
unfoldable pub use Sorting.*
unfoldable pub use Text.*
pub use Text.Trimming.{trim_space-trim_space}
unfoldable pub use Lower.*
pub use Fresh.*
pub use SortOrder.*
unfoldable pub use Rank.*
pub use Results.*
unfoldable pub use Numbers.*
pub use Splitting.*
pub use Prim.Native.Nat.{ℕ, zero, suc, ◌+◌, ◌-◌, ◌*◌, ◌/◌, ◌%◌, ◌^◌, ◌≤◌, ◌<◌}
pub use mathlib.Core.Path.{◌≡◌, refl, sym, ap, ◌∙◌}
pub use mathlib.Core.Logic.{◌≢◌, ◌↔◌, ◌⊎◌, inl, inr}
pub use mathlib.Core.Bool.{Bool, true, false, not, ◌&&◌, ◌||◌}
pub use mathlib.Core.Option.{Option, none, some}
pub use mathlib.Core.List.{List, [], ◌∷◌, ◌++◌, map, append-nil, append_assoc}
pub use native.Mathlib.Omega.{arith}

-- ===== src/Base.antt =====
-- Names that every module of the development shares: the libraries' names, passed on, the Boolean
-- tests on numbers, lists measured by native numbers, and byte strings with the operations of
-- `std::string_view`.
mod Tests
mod Lists
mod Text
mod Sums
mod Bags
pub use Tests.*
pub use Lists.*
pub use Sums.*
pub use Bags.*
unfoldable pub use Text.*
pub use Prim.Native.Nat.{ℕ, zero, suc, ◌+◌, ◌-◌, ◌*◌, ◌/◌, ◌%◌, ◌^◌, ◌≤◌, ◌<◌, min}
pub use mathlib.Core.Path.{◌≡◌, refl, sym, ap, subst, ◌∙◌}
pub use mathlib.Core.Logic.{◌≢◌, ◌↔◌, ◌⊎◌, inl, inr}
pub use mathlib.Core.Bool.{Bool, true, false, not, ◌&&◌, ◌||◌}
pub use mathlib.Core.Option.{Option, none, some}
pub use mathlib.Core.List.{List, [], ◌∷◌, ◌++◌, map, append-nil, append_assoc}
pub use native.Mathlib.Omega.{arith}

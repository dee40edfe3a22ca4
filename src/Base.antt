-- ===== src/Base.antt =====
-- The names that the other modules share: the libraries' names, Boolean tests, results, lists
-- measured by native numbers, fixed-width arithmetic.
mod Tests
mod Results
mod Lists
mod Words
mod Perms
mod Bags
mod Sets
mod Maps
mod Orders
mod Sublists
mod Ints
pub use Tests.*
pub use Results.*
pub use Lists.*
pub use Words.*
pub use Perms.*
pub use Bags.*
pub use Sets.*
pub use Maps.*
pub use Orders.*
pub use Sublists.*
pub use Ints.*
pub use Prim.Native.Nat.{ℕ, zero, suc, ◌+◌, ◌-◌, ◌*◌, ◌%◌, ◌^◌, ◌≤◌, ◌<◌, max}
pub use Prim.Native.String.{String}
pub use mathlib.Core.Path.{◌≡◌, refl, sym, ap, ◌∙◌, subst}
pub use mathlib.Core.Logic.{◌≢◌, ◌↔◌, ◌⊎◌, inl, inr}
pub use mathlib.Core.Bool.{Bool, true, false, not, ◌&&◌, ◌||◌}
pub use mathlib.Core.Option.{Option, none, some}
pub use mathlib.Core.List.{List, [], ◌∷◌, ◌++◌, map, append-nil, append_assoc}
pub use native.Mathlib.Omega.{arith}

-- ===== src/Prelude.antt =====
-- The names that every component shares: the libraries', passed on, Boolean tests on numbers,
-- results with an error, equality as an interface, checked loops over keys, sorting, integers.
mod Tests
mod Results
mod Keys
mod Integers
mod Sorting
mod Lookup
unfoldable pub use Tests.*
unfoldable pub use Results.*
unfoldable pub use Keys.*
unfoldable pub use Integers.*
unfoldable pub use Sorting.*
unfoldable pub use Lookup.*
pub use Prim.Native.Nat.{ℕ, zero, suc, ◌+◌, ◌-◌, ◌*◌, ◌/◌, ◌%◌, ◌^◌, ◌≤◌, ◌<◌}
pub use mathlib.Core.Path.{◌≡◌, refl, sym, ap, ap₂, subst, ◌∙◌}
pub use mathlib.Core.Logic.{◌≢◌, ◌↔◌, ◌⊎◌, inl, inr}
pub use mathlib.Core.Bool.{Bool, true, false, not, ◌&&◌, ◌||◌}
pub use mathlib.Core.Option.{Option, none, some, some-injective}
pub use mathlib.Core.List.{List, [], ◌∷◌, ◌++◌, map, reverse}
pub use native.Mathlib.Omega.{arith}

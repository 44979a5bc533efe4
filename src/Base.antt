-- ===== src/Base.antt =====
-- What the other modules share: the names of the libraries, passed on, Boolean tests on numbers,
-- lists measured by native numbers, equality as an interface, and the two JavaScript containers
-- (`Map`, `Set`) that the services keep their state in.
mod Tests
mod Lists
mod Equality
pub mod Dict
pub mod Bag
pub mod Codes
pub mod Split
pub mod Order
pub mod Json
pub mod Ranking
pub use Tests.*
pub use Lists.*
pub use Equality.*
pub use Prim.Native.Nat.{ℕ, zero, suc, ◌+◌, ◌-◌, ◌*◌, ◌/◌, ◌%◌, ◌^◌, ◌≤◌, ◌<◌, min, max}
pub use mathlib.Core.Path.{◌≡◌, refl, sym, ap, ◌∙◌}
pub use mathlib.Core.Logic.{◌≢◌, ◌↔◌, ◌⊎◌, inl, inr}
pub use mathlib.Core.Bool.{Bool, true, false, ◌&&◌, ◌||◌, not}
pub use mathlib.Core.Option.{Option, none, some}
pub use mathlib.Core.List.{List, [], ◌∷◌, ◌++◌, map}
pub use native.Mathlib.Omega.{arith}

-- ===== src/Common.antt =====
-- The names that the other modules share: the libraries' names passed on, Boolean tests, byte
-- strings, lists over the native numbers, and finite maps. No file of the program is modelled here.
mod Tests
mod Lists
mod Text
mod Order
mod Maps
mod Stream
mod Results
unfoldable pub use Tests.*
unfoldable pub use Lists.*
unfoldable pub use Text.*
unfoldable pub use Order.*
unfoldable pub use Maps.*
unfoldable pub use Results.*
unfoldable pub use Stream.*
pub use Prim.Native.Nat.{ℕ, zero, suc, ◌+◌, ◌-◌, ◌*◌, ◌/◌, ◌%◌, ◌^◌, ◌≤◌, ◌<◌}
pub use mathlib.Core.Path.{◌≡◌, refl, sym, ap, ◌∙◌, subst}
pub use mathlib.Core.Logic.{◌≢◌, ◌↔◌, ◌⊎◌, inl, inr}
pub use mathlib.Core.Bool.{Bool, true, false, not, ◌&&◌, ◌||◌}
pub use mathlib.Core.Option.{Option, none, some}
pub use mathlib.Core.List.{List, [], ◌∷◌, ◌++◌, map}
pub use native.Mathlib.Omega.{arith}

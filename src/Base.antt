-- ===== src/Base.antt =====
-- The names that the other modules share.
mod Tests
mod Equality
mod Lists
mod Contains
mod Sums
mod Text
pub mod Dict
pub mod Int
mod Outcome
mod Effect
pub use Tests.*
unfoldable pub use Equality.*
pub use Lists.*
pub use Contains.*
pub use Sums.*
pub use Text.*
pub use Outcome.*
pub use Effect.*
pub use Prim.Native.Nat.{ℕ, zero, suc, ◌+◌, ◌-◌, ◌*◌, ◌/◌, ◌%◌, ◌^◌, ◌≤◌, ◌<◌}
pub use Prim.Native.String.{String}
pub use mathlib.Core.Path.{◌≡◌, refl, sym, ap, subst, ◌∙◌}
pub use mathlib.Core.Logic.{◌≢◌, ◌↔◌, ◌⊎◌, inl, inr}
pub use mathlib.Core.Bool.{Bool, true, false, not, ◌&&◌, ◌||◌}
pub use mathlib.Core.Option.{Option, none, some}
pub use mathlib.Core.List.{List, [], ◌∷◌, ◌++◌, map}
pub use native.Mathlib.Omega.{arith}

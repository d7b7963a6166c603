-- ===== src/Common.antt =====
-- The names that the other modules share: the libraries', passed on, and those of seven children.
-- No code of the repository is modelled here.
mod Tests
mod Lists
mod Text
mod Pieces
mod Writes
mod Ints
pub mod Bits
pub use Tests.*
pub use Lists.*
pub use Text.*
pub use Pieces.*
pub use Writes.*
unfoldable pub use Writes.{put}
pub use Ints.*
pub use Prim.Native.Nat.{ℕ, zero, suc, ◌+◌, ◌-◌, ◌*◌, ◌/◌, ◌%◌, ◌^◌, ◌≤◌, ◌<◌}
pub use Prim.Native.Nat.{bit_and, bit_or}
pub use mathlib.Core.Path.{◌≡◌, refl, sym, ap, ap₂, ◌∙◌, subst}
pub use mathlib.Core.Logic.{◌≢◌, ◌↔◌, ◌⊎◌, inl, inr}
pub use mathlib.Core.Bool.{Bool, true, false, not, ◌&&◌, ◌||◌}
pub use mathlib.Core.Option.{Option, none, some}
pub use mathlib.Core.List.{List, [], ◌∷◌, ◌++◌, append-nil, append_assoc}
pub use native.Mathlib.Omega.{arith}

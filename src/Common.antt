-- ===== src/Common.antt =====
-- Names that every module of the development shares: the libraries', passed on, and those of the
-- children (tests and conditionals, lists, bytes, signed numbers).
mod Tests
mod Lists
pub mod Fallible
pub mod Effect
mod Bytes
mod Int
mod Text
pub use Tests.*
pub use Lists.*
unfoldable pub use Bytes.*
unfoldable pub use Int.*
unfoldable pub use Text.*
pub use Prim.Native.Nat.{ℕ, zero, suc, ◌+◌, ◌-◌, ◌*◌, ◌/◌, ◌%◌, ◌^◌, ◌≤◌, ◌<◌}
pub use mathlib.Core.Path.{◌≡◌, refl, sym, ap, subst, ◌∙◌}
pub use mathlib.Core.Logic.{◌≢◌, ◌↔◌, ◌⊎◌, inl, inr}
pub use mathlib.Core.Bool.{Bool, true, false, not, ◌&&◌, ◌||◌}
pub use mathlib.Core.Option.{Option, none, some}
pub use mathlib.Core.List.{List, [], ◌∷◌, ◌++◌, map, append_assoc, append-nil}
pub use native.Mathlib.Omega.{arith}

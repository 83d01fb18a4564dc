-- ===== src/Common.antt =====
-- The names that the other modules share: the libraries' names passed on, Boolean tests and the
-- conditional, list helpers, Go strings as byte lists, Go maps, and times in nanoseconds.
mod Tests
mod Lists
pub mod Text
pub mod Dict
pub mod Sharded
pub mod Time
pub mod Int
pub mod Ascii
pub mod Int64
pub mod Net
pub mod Strings
pub use Tests.*
pub use Lists.*
unfoldable pub use Text.{str_eq}
pub use Text.{Bytes, str_eq_iff, str_eq_refl, bytes}
pub use Time.{Instant, since, max_duration}
pub use Prim.Native.Nat.{ℕ, zero, suc, ◌+◌, ◌-◌, ◌*◌, ◌/◌, ◌%◌, ◌^◌, ◌≤◌, ◌<◌, min, max}
pub use mathlib.Core.Path.{◌≡◌, refl, sym, ap, ◌∙◌}
pub use mathlib.Core.Logic.{◌≢◌, ◌↔◌, ◌⊎◌, inl, inr}
pub use mathlib.Core.Bool.{Bool, true, false, ◌&&◌, ◌||◌, not}
pub use mathlib.Core.Option.{Option, none, some}
pub use mathlib.Core.List.{List, [], ◌∷◌, ◌++◌, map}
pub use native.Mathlib.Omega.{arith}

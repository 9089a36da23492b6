-- ===== src/Base.antt =====
-- What the modules share: library names passed on, Boolean tests, byte lists, Python's dict and
-- exceptions.
pub mod Tests
pub mod Lists
pub mod Results
pub mod Dict
pub mod Actions
pub mod Keyed
pub mod Int
pub mod Strings
unfoldable pub use Tests.*
unfoldable pub use Lists.*
pub use Results.*
pub use Actions.*
pub use Prim.Native.Nat.{ℕ, zero, suc, ◌+◌, ◌-◌, ◌*◌, ◌/◌, ◌%◌, ◌^◌, ◌≤◌, ◌<◌}
pub use Prim.Native.String.{String}
pub use mathlib.Core.Path.{◌≡◌, refl, sym, ap, ◌∙◌, subst}
pub use mathlib.Core.Logic.{◌≢◌, ◌↔◌, ◌⊎◌, inl, inr}
pub use mathlib.Core.Bool.{Bool, true, false, ◌&&◌, ◌||◌, not}
pub use mathlib.Core.Option.{Option, none, some}
pub use mathlib.Core.List.{List, [], ◌∷◌, ◌++◌, map, append_assoc, append-nil}
pub use native.Mathlib.Omega.{arith}

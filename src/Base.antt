-- ===== src/Base.antt =====
-- Names and lemmas that every component shares: the libraries' names, the conditional, the key
-- interface, and list, map and sort operations of Go's standard library that the program uses.
pub mod Tests
pub mod Keys
pub mod Lists
pub mod Maps
pub mod Sort
pub mod Text
pub mod Int
pub use Tests.*
pub use Keys.*
pub use Prim.Native.Nat.{ℕ, zero, suc, ◌+◌, ◌-◌, ◌≤◌, ◌<◌}
pub use Prim.Native.String.{String}
pub use mathlib.Core.Path.{◌≡◌, refl, sym, ap, ◌∙◌, subst}
pub use mathlib.Core.Logic.{◌≢◌, ◌↔◌, ◌⊎◌, inl, inr}
pub use mathlib.Core.Bool.{Bool, true, false, not, ◌&&◌, ◌||◌}
pub use mathlib.Core.Option.{Option, none, some}
pub use mathlib.Core.List.{List, [], ◌∷◌, ◌++◌, map}
pub use native.Mathlib.Omega.{arith}

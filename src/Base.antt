-- ===== src/Base.antt =====
-- The names that every module shares: those of the libraries, passed on, the Boolean tests, the
-- equality interface, lists over the native numbers, Python's `dict` and `str`.
pub mod Tests
pub mod Eq
pub mod Lists
pub mod Dict
pub mod Str
pub mod Lines
pub mod Numbers
pub mod Json
pub mod Order
pub mod Pigeon
pub mod AnyOf
pub use Prim.Native.Nat.{ℕ, zero, suc, ◌+◌, ◌-◌, ◌*◌, ◌/◌, ◌%◌, ◌^◌, ◌≤◌, ◌<◌, min, max}
pub use Prim.Native.String.{String}
pub use mathlib.Core.Path.{◌≡◌, refl, sym, ap, ◌∙◌, subst, ◌≡⟨◌⟩◌, ◌∎}
pub use mathlib.Core.Logic.{◌≢◌, ◌↔◌, ◌⊎◌, inl, inr}
pub use mathlib.Core.Bool.{Bool, true, false, not, ◌&&◌, ◌||◌}
pub use mathlib.Core.Option.{Option, none, some}
pub use mathlib.Core.List.{List, [], ◌∷◌, ◌++◌, map, append_assoc, append-nil}
pub use native.Mathlib.Omega.{arith}

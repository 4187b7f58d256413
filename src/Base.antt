-- ===== src/Base.antt =====
-- The names that the other modules share: those of the libraries, passed on, and those of the
-- children, which hold the tests on numbers, the lists of the C arrays and chains, and the words.
mod Tests
mod Lists
mod Words
mod Bytes
mod Copies
mod Predicates
pub use Tests.*
unfoldable pub use Lists.*
pub use Words.*
unfoldable pub use Bytes.*
pub use Copies.*
pub use Predicates.*
pub use Prim.Native.Nat.{ℕ, zero, suc, ◌+◌, ◌-◌, ◌*◌, ◌/◌, ◌%◌, ◌^◌, ◌≤◌, ◌<◌}
pub use mathlib.Core.Path.{◌≡◌, refl, sym, ap, ap₂, subst, ◌∙◌}
pub use mathlib.Core.Logic.{◌≢◌, ◌↔◌, ◌⊎◌, inl, inr}
pub use mathlib.Core.Bool.{Bool, true, false, not, ◌&&◌, ◌||◌}
pub use mathlib.Core.Option.{Option, none, some}
pub use mathlib.Core.List.{List, [], ◌∷◌, ◌++◌, map, append-nil, append_assoc}
pub use native.Mathlib.Omega.{arith}
pub use native.Mathlib.Nat.{
  div-add-mod', mod-lt, mul-add-div_right, div-eq_of_lt, le-div_iff_mul-le, suc-mul,
}

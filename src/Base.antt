-- ===== src/Base.antt =====
-- The names that the other modules share: those of the libraries, passed on, and those of the
-- children. A Go string is the list of its code points, a Go map an association list.
mod Tests
mod Lists
pub mod Strings
pub mod Maps
pub mod Int
pub mod Order
pub mod Sorting
pub mod Sets
pub mod Keys
pub mod Values
pub mod Family
pub mod Merge
pub mod Interleaving
pub use Tests.*
unfoldable pub use Lists.*
unfoldable pub use Strings.*
pub use Prim.Native.Nat.{ℕ, zero, suc, ◌+◌, ◌-◌, ◌≤◌, ◌<◌}
pub use mathlib.Core.Path.{◌≡◌, refl, sym, ap, ap₂, subst, ◌∙◌}
pub use mathlib.Core.Logic.{
  ◌≢◌, ◌↔◌, ◌⊎◌, inl, inr, ◌∨₁◌, ite, dite, if_pos, if_neg, ∥∥₁_elim, ∥∥₁_map,
}
pub use mathlib.Core.Bool.{Bool, true, false, not, ◌&&◌, ◌||◌}
pub use mathlib.Core.Option.{Option, none, some}
pub use mathlib.Core.List.{List, [], ◌∷◌, ◌++◌, map, append_assoc, append-nil}
pub use native.Mathlib.Omega.{arith}
unfoldable pub use native.Mathlib.Decide.{dec_lt, ℕ_discrete}

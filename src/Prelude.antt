-- ===== src/Prelude.antt =====
-- Shared notation: the libraries' names, passed on, and the helpers of three children.
mod Tests
mod Lists
mod Results
mod Sorts
mod Ends
pub mod Runs
pub use Tests.*
pub use Lists.*
pub use Results.*
pub use Ends.{flatten, last-flatten}
pub use Sorts.{
  IsSorted, TotalTest, length-sort, sort-IsSorted, last, length-last, last-all, last-cons,
}
unfoldable pub use Sorts.{insert, sort}
pub use Prim.Native.Nat.{ℕ, zero, suc, ◌+◌, ◌-◌, ◌*◌, ◌/◌, ◌%◌, ◌^◌, ◌≤◌, ◌<◌, min, max}
pub use mathlib.Core.Path.{◌≡◌, refl, sym, ap, subst, ◌∙◌, ◌≡⟨◌⟩◌, ◌∎}
pub use mathlib.Core.Logic.{◌≢◌, ◌↔◌, ◌⊎◌, inl, inr, ite, if_pos, if_neg}
pub use mathlib.Core.Bool.{Bool, true, false, not, ◌&&◌, ◌||◌}
pub use mathlib.Core.Option.{Option, none, some}
pub use mathlib.Core.List.{List, [], ◌∷◌, ◌++◌, map, append_assoc, append-nil, map-append}
pub use native.Mathlib.Omega.{arith}
unfoldable pub use native.Mathlib.Decide.{dec_lt, ℕ_discrete}

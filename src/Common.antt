-- ===== src/Common.antt =====
-- The names that every module shares: the libraries', passed on, and those of the child modules.
mod Tests
mod Lists
pub mod Slices
mod Text
mod Int
mod Range
pub mod Match
pub mod Lines
pub mod Fields
pub mod Decimal
pub use Tests.*
pub use Lists.*
unfoldable pub use Lists.{select}
pub use Text.*
pub use Int.*
unfoldable pub use Range.{holds_below}
pub use Range.{holds_below-at}
pub use Prim.Native.Nat.{ℕ, zero, suc, ◌+◌, ◌-◌, ◌*◌, ◌/◌, ◌%◌, ◌^◌, min, ◌≤◌, ◌<◌, bit_and, bit_or}
pub use Prim.Native.String.{String}
pub use mathlib.Core.Path.{◌≡◌, refl, sym, ap, ap₂, subst, ◌∙◌, ◌≡⟨◌⟩◌, ◌∎}
pub use mathlib.Core.Logic.{◌≢◌, ◌↔◌, ◌⊎◌, inl, inr}
pub use mathlib.Core.Bool.{Bool, true, false, not, ◌&&◌, ◌||◌}
pub use mathlib.Core.Option.{Option, none, some}
pub use mathlib.Core.List.{List, [], ◌∷◌, ◌++◌, map, map-append, append-nil, append_assoc}
pub use native.Mathlib.Omega.{arith}

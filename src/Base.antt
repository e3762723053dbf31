-- ===== src/Base.antt =====
-- The notation, the types and the lemmas that every other file uses. No code of the repository
-- is modelled here: these are the parts of Rust and of its `core` library that it relies on.
mod Num
mod Slice
mod Int
mod Float
mod Text
mod Index
mod Bits
mod Outcome
unfoldable pub use Num.*
unfoldable pub use Slice.*
unfoldable pub use Int.*
unfoldable pub use Float.*
unfoldable pub use Text.*
unfoldable pub use Index.*
unfoldable pub use Bits.*
unfoldable pub use Outcome.*
pub use Prim.Native.Nat.{ℕ, zero, suc, ◌+◌, ◌-◌, ◌*◌, ◌/◌, ◌%◌, ◌^◌, ◌≤◌, ◌<◌, min, max}
pub use Prim.Native.Nat.{bit_and, bit_or, bit_xor}
pub use native.Mathlib.Omega.{arith}
pub use mathlib.Core.Path.{◌≡◌, refl, sym, ◌∙◌, ap, ap₂, ◌≡⟨◌⟩◌, ◌∎}
pub use mathlib.Core.Logic.{◌≢◌, ◌↔◌, ◌⊎◌, inl, inr}
pub use mathlib.Core.Bool.{Bool, true, false, not, ◌&&◌, ◌||◌}
pub use mathlib.Core.Option.{Option, none, some}
pub use mathlib.Core.List.{List, [], ◌∷◌, ◌++◌, map}

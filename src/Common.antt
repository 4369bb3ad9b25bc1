-- ===== src/Common.antt =====
-- The names that the other modules share: the libraries' own, passed on, and those of the
-- children Tests (Boolean tests on numbers), Lists (sequences measured by native numbers) and
-- Words (machine words and their big-endian encodings). Text holds text literals as bytes, Dict
-- byte strings as keys and maps over them, Process what the process owns, Run statements that
-- throw.
mod Tests
mod Lists
mod Words
pub mod Xor
pub mod Text
pub mod Dict
pub mod Process
pub mod Run
pub use Tests.*
pub use Lists.*
pub use Words.*
pub use Prim.Native.Nat.{ℕ, zero, suc, ◌+◌, ◌-◌, ◌*◌, ◌/◌, ◌%◌, ◌^◌, ◌≤◌, ◌<◌, bit_xor, bit_or, min}
pub use mathlib.Core.Path.{◌≡◌, refl, sym, ap, ap₂, ◌∙◌, subst, ◌≡⟨◌⟩◌, ◌∎}
pub use mathlib.Core.Logic.{◌≢◌, ◌↔◌, ◌⊎◌, inl, inr}
pub use mathlib.Core.Bool.{Bool, true, false, ◌&&◌, ◌||◌, not}
pub use mathlib.Core.Option.{Option, none, some}
pub use mathlib.Core.List.{List, [], ◌∷◌, ◌++◌, map, append_assoc, append-nil}
pub use native.Mathlib.Omega.{arith}

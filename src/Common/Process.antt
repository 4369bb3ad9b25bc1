-- ===== src/Common/Process.antt =====
-- What the process owns: its descriptors, and the contexts of the TLS library.
use Prim.Native.Nat.{ℕ}
use mathlib.Core.Path.{◌≡◌}
use mathlib.Core.List.{List, [], ◌∷◌}
use native.Mathlib.Omega.{arith}
use network_lirbary.Common.Tests.{◌==◌, if◌then◌else◌}

-- The descriptors and contexts that were made and not given back, the last one first.
pub record Process (World : Type 0) : Type 0 where
  pub world : World
  pub opened : List ℕ
  -- The descriptors and ports that the kernel was asked to bind, in order.
  pub binds : List (ℕ × ℕ)
  pub contexts : List ℕ

unfoldable pub removed : ℕ → List ℕ → List ℕ
removed x [] = []
removed x (y ∷ ys) = let rest = removed x ys in if y == x then ys else y ∷ rest

pub removed_lem : (x : ℕ) (xs : List ℕ) → removed x (x ∷ xs) ≡ xs
unfolding removed
removed_lem x xs = ground arith

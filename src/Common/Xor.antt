-- ===== src/Common/Xor.antt =====
-- Bytes and exclusive or.
use Prim.Native.Nat.{ℕ, zero, suc, ◌<◌, bit_xor}
use mathlib.Core.Path.{◌≡◌, refl}
use mathlib.Core.Bool.{Bool, true, ◌&&◌}
use native.Mathlib.Omega.{arith}
use network_lirbary.Common.Tests.{◌==◌, ==_iff}

unfoldable all_below : ℕ → (ℕ → Bool) → Bool
all_below zero p = true
all_below (suc n) p = p n && all_below n p

all_below-holds : (n : ℕ) (p : ℕ → Bool) (x : ℕ) → all_below n p ≡ true → x < n → p x ≡ true
unfolding all_below
all_below-holds zero p x h lt = absurd (omega arith)
all_below-holds (suc n) p x h lt = ground (arith, all_below-holds n p x)

twice : all_below 256 (λ k. all_below 256 (λ x. bit_xor (bit_xor x k) k == x)) ≡ true
unfolding all_below
twice = refl

pub xor-xor : (x k : ℕ) → x < 256 → k < 256 → bit_xor (bit_xor x k) k ≡ x
xor-xor x k p q = (==_iff _ x).0 (all_below-holds 256 _ x (all_below-holds 256 _ k twice q) p)

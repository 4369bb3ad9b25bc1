-- ===== src/Common/Words.antt =====
-- Machine words: `size_t` arithmetic, which wraps, and big-endian (network order) encodings.
use Prim.Native.Nat.{ℕ, ◌+◌, ◌-◌, ◌*◌, ◌%◌, ◌/◌, ◌^◌, ◌≤◌, ◌<◌}
use mathlib.Core.Path.{◌≡◌}
use mathlib.Core.List.{List, [], ◌∷◌}
use native.Mathlib.Omega.{arith}
use network_lirbary.Common.Lists.{get_or}

abbrev pub Bytes : Type 0
Bytes = List ℕ

abbrev pub sub64 : ℕ → ℕ → ℕ
sub64 a b = (a + (2 ^ 64 - b)) % 2 ^ 64

abbrev pub add64 : ℕ → ℕ → ℕ
add64 a b = (a + b) % 2 ^ 64

-- `uint32_t` addition.
abbrev pub add32 : ℕ → ℕ → ℕ
add32 a b = (a + b) % 2 ^ 32

-- The four bytes of `htonl(x)` in memory.
abbrev pub to_be32 : ℕ → Bytes
to_be32 x = (x / 2 ^ 24 % 256) ∷ (x / 2 ^ 16 % 256) ∷ (x / 2 ^ 8 % 256) ∷ (x % 256) ∷ []

-- `ntohl` of the first four bytes.
abbrev pub of_be32 : Bytes → ℕ
of_be32 bs = get_or bs 0 0 * 2 ^ 24 + get_or bs 1 0 * 2 ^ 16 + get_or bs 2 0 * 2 ^ 8 + get_or bs 3 0

-- `ntohs` of the first two bytes.
abbrev pub of_be16 : Bytes → ℕ
of_be16 bs = get_or bs 0 0 * 2 ^ 8 + get_or bs 1 0

-- Network order round trip: every `uint32_t` is read back from its four bytes.
pub of_be32-to_be32 : (x : ℕ) → x < 2 ^ 32 → of_be32 (to_be32 x) ≡ x
of_be32-to_be32 x h = omega arith

pub sub64_exact : (a b : ℕ) → b ≤ a → a < 2 ^ 64 → sub64 a b ≡ a - b
sub64_exact a b h k = omega arith

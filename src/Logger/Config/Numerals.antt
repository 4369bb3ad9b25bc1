-- ===== src/Logger/Config/Numerals.antt =====
-- `std::stoi`, `std::stoll` and `std::stoull`: spaces, a sign and digits at the front of a text;
-- `none` is the exception `invalid_argument` or `out_of_range`.
use network_lirbary.Common.{
  ℕ, zero, suc, ◌-◌, ◌^◌, ◌%◌, ◌==◌, ltb, if◌then◌else◌, [], ◌∷◌, Option, none, some, Bytes,
}
use network_lirbary.Common.Text.{ℤ, pos, negsuc}
use network_lirbary.Protocol.Http.Text.{digits, skip_spaces}

-- A magnitude with its sign, between -bound and bound - 1.
abbrev within : ℕ → Option ℕ → Option ℤ
within bound none = none
within bound (some n) = if ltb n bound then some (pos n) else none

abbrev negated : ℕ → Option ℕ → Option ℤ
negated bound none = none
negated bound (some zero) = some (pos 0)
negated bound (some (suc n)) = if ltb n bound then some (negsuc n) else none

signed_below : ℕ → Bytes → Option ℤ
signed_below bound [] = none
signed_below bound (c ∷ cs) =
    if c == b'-'
    then negated bound (digits cs)
    else if c == b'+'
    then within bound (digits cs)
    else within bound (digits (c ∷ cs))

pub stoi : Bytes → Option ℤ
stoi s = signed_below (2 ^ 31) (skip_spaces s)

pub stoll : Bytes → Option ℤ
stoll s = signed_below (2 ^ 63) (skip_spaces s)

abbrev word64 : Option ℕ → Option ℕ
word64 none = none
word64 (some n) = if ltb n (2 ^ 64) then some n else none

-- A negative numeral wraps.
abbrev negated64 : Option ℕ → Option ℕ
negated64 none = none
negated64 (some n) = some ((2 ^ 64 - n) % 2 ^ 64)

unsigned : Bytes → Option ℕ
unsigned [] = none
unsigned (c ∷ cs) =
    if c == b'-'
    then negated64 (word64 (digits cs))
    else if c == b'+'
    then word64 (digits cs)
    else word64 (digits (c ∷ cs))

pub stoull : Bytes → Option ℕ
stoull s = unsigned (skip_spaces s)

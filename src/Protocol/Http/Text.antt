-- ===== src/Protocol/Http/Text.antt =====
-- The pieces of the C++ library that the parser reads text with: `istringstream`, `find`,
-- `std::stoi`.
pub mod Numerals
pub mod Lines
use network_lirbary.Common.{
  ℕ, zero, suc, ◌+◌, ◌-◌, ◌*◌, ◌^◌, Bool, true, false, ◌||◌, ◌&&◌, ◌==◌, ltb, leb, if◌then◌else◌,
  List, [], ◌∷◌, ◌++◌, Option, none, some, Bytes,
}

-- "Content-Length"
abbrev pub content_length : Bytes
content_length =
    b'C' ∷ b'o' ∷ b'n' ∷ b't' ∷ b'e' ∷ b'n' ∷ b't' ∷ b'-' ∷ b'L' ∷ b'e' ∷ b'n' ∷ b'g' ∷ b't' ∷ b'h'
    ∷ []

-- `isspace` in the C locale.
abbrev pub is_space : ℕ → Bool
is_space c = (c == 32) || (leb 9 c && leb c 13)

abbrev pub is_digit : ℕ → Bool
is_digit c = leb b'0' c && leb c b'9'

unfoldable pub skip_spaces : Bytes → Bytes
skip_spaces [] = []
skip_spaces (c ∷ cs) = let rest = skip_spaces cs in if is_space c then rest else c ∷ cs

-- The word at the front, and what follows it.
unfoldable pub word : Bytes → Bytes × Bytes
word [] = ([], [])
word (c ∷ cs) = let (w, rest) = word cs in if is_space c then ([], c ∷ cs) else (c ∷ w, rest)

-- `stream >> s`: nothing is read, and `s` is kept, where only spaces are left.
unfoldable pub read_word : Bytes → Bytes → Bytes × Bytes
read_word old [] = (old, [])
read_word old (c ∷ cs) = word (c ∷ cs)

unfoldable pub read_words : Bytes × Bytes × Bytes → Bytes → Bytes × Bytes × Bytes
read_words (a, b, c) line =
    let (a', l1) = read_word a (skip_spaces line) in
    let (b', l2) = read_word b (skip_spaces l1) in
    let (c', l3) = read_word c (skip_spaces l2) in (a', b', c')

abbrev one_further : Option ℕ → Option ℕ
one_further none = none
one_further (some k) = some (suc k)

-- `line.find(':')`.
pub find_colon : Bytes → Option ℕ
find_colon [] = none
find_colon (c ∷ cs) = if c == b':' then some 0 else one_further (find_colon cs)

-- A carriage return at the end is taken off.
pub pop_carriage_return : Bytes → Bytes
pop_carriage_return [] = []
pop_carriage_return (c ∷ []) = if c == 13 then [] else c ∷ []
pop_carriage_return (c ∷ (d ∷ cs)) = c ∷ pop_carriage_return (d ∷ cs)

-- The digits at the front, from a value read so far.
pub digits_from : ℕ → Bytes → ℕ
digits_from n [] = n
digits_from n (c ∷ cs) =
    let more = digits_from (n * 10 + (c - b'0')) cs in if is_digit c then more else n

-- Digits that must begin with one: `std::stoi` throws `invalid_argument` otherwise.
pub digits : Bytes → Option ℕ
digits [] = none
digits (c ∷ cs) = if is_digit c then some (digits_from 0 (c ∷ cs)) else none

-- An `int` as a `size_t`; out of range `std::stoi` throws.
pub positive : Option ℕ → Option ℕ
positive none = none
positive (some n) = if ltb n (2 ^ 31) then some n else none

pub negative : Option ℕ → Option ℕ
negative none = none
negative (some zero) = some 0
negative (some (suc n)) = if ltb n (2 ^ 31) then some (2 ^ 64 - suc n) else none

pub signed : Bytes → Option ℕ
signed [] = none
signed (c ∷ cs) =
    if c == b'-'
    then negative (digits cs)
    else if c == b'+'
    then positive (digits cs)
    else positive (digits (c ∷ cs))

-- `size_t len = std::stoi(s)`.
pub to_size : Bytes → Option ℕ
to_size s = signed (skip_spaces s)

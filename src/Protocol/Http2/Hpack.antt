-- ===== src/Protocol/Http2/Hpack.antt =====
-- `HpackEncoder` of lib_network/src/protocols/http2/hpack.cc, and the decoder of RFC 7541, section
-- 5.1, for the integers that it writes. `out.back()` is the byte that an integer begins in.
use network_lirbary.Common.{
  ℕ, zero, suc, ◌+◌, ◌-◌, ◌*◌, ◌/◌, ◌%◌, ◌^◌, ◌<◌, ◌≡◌, refl, ap, false, ◌&&◌, ltb, if◌then◌else◌,
  Bool-cases, inl, inr, ltb→lt, ltb→le, le→ltb, lt→ltb, List, [], ◌∷◌, ◌++◌, Option, none, some,
  length, take, drop, Bytes, take-append_exact, drop-append_exact, length-append, append_assoc,
  arith,
}
use network_lirbary.Common.Dict.{bytes_eq}

-- `while (value >= 128)`, on fuel: five rounds are enough for a `uint32_t`.
pub encode_rest : ℕ → ℕ → Bytes
encode_rest zero value = value ∷ []
encode_rest (suc fuel) value =
    let rest = (value % 128 + 128) ∷ encode_rest fuel (value / 128) in
    if ltb value 128 then value ∷ [] else rest

-- `EncodeInteger` with seven bits, into a byte that is zero so far.
pub encode_integer : ℕ → Bytes
encode_integer value = if ltb value 127 then value ∷ [] else 127 ∷ encode_rest 5 (value - 127)

pub encode_string : Bytes → Bytes
encode_string str = encode_integer (length str % 2 ^ 32) ++ str

-- The bytes of a name or value in a header.
abbrev method : Bytes
method = b':' ∷ b'm' ∷ b'e' ∷ b't' ∷ b'h' ∷ b'o' ∷ b'd' ∷ []

abbrev post : Bytes
post = b'P' ∷ b'O' ∷ b'S' ∷ b'T' ∷ []

abbrev scheme : Bytes
scheme = b':' ∷ b's' ∷ b'c' ∷ b'h' ∷ b'e' ∷ b'm' ∷ b'e' ∷ []

abbrev http : Bytes
http = b'h' ∷ b't' ∷ b't' ∷ b'p' ∷ []

abbrev status : Bytes
status = b':' ∷ b's' ∷ b't' ∷ b'a' ∷ b't' ∷ b'u' ∷ b's' ∷ []

abbrev ok : Bytes
ok = b'2' ∷ b'0' ∷ b'0' ∷ []

abbrev path : Bytes
path = b':' ∷ b'p' ∷ b'a' ∷ b't' ∷ b'h' ∷ []

abbrev authority : Bytes
authority = b':' ∷ b'a' ∷ b'u' ∷ b't' ∷ b'h' ∷ b'o' ∷ b'r' ∷ b'i' ∷ b't' ∷ b'y' ∷ []

-- One header: an index of the static table where there is one, or a literal without indexing.
pub encode_header : Bytes × Bytes → Bytes
encode_header (name, value) =
    if bytes_eq name method && bytes_eq value post
    then 131 ∷ []
    else if bytes_eq name scheme && bytes_eq value http
    then 134 ∷ []
    else if bytes_eq name status && bytes_eq value ok
    then 136 ∷ []
    else if bytes_eq name path
    then 4 ∷ encode_string value
    else if bytes_eq name authority
    then 1 ∷ encode_string value
    else 0 ∷ (encode_string name ++ encode_string value)

-- `Encode`, on the headers in the order of the map.
pub encode : List (Bytes × Bytes) → Bytes
encode [] = []
encode (h ∷ hs) = encode_header h ++ encode hs

-- The decoder of the RFC: the value of the bytes that continue an integer, and what is behind them.
abbrev continued : ℕ → ℕ → Option (ℕ × Bytes) → Option (ℕ × Bytes)
continued low scale none = none
continued low scale (some (v, left)) = some (low + scale * v, left)

pub decode_rest : Bytes → Option (ℕ × Bytes)
decode_rest [] = none
decode_rest (b ∷ bs) =
    let more = continued (b % 128) 128 (decode_rest bs) in if ltb b 128 then some (b, bs) else more

pub decode_integer : Bytes → Option (ℕ × Bytes)
decode_integer [] = none
decode_integer (b ∷ bs) =
    if ltb (b % 128) 127 then some (b % 128, bs) else continued 127 1 (decode_rest bs)

-- A string is its length and its bytes.
pub decode_string : Bytes → Option (Bytes × Bytes)
decode_string bs = elim (decode_integer bs) [
  | none ↦ none
  | some (n, left) ↦ if ltb (length left) n then none else some (take n left, drop n left)
]

-- What `fuel` rounds are enough for.
abbrev limit : ℕ → ℕ
limit zero = 128
limit (suc fuel) = 128 * limit fuel

decode_rest-encode_rest :
    (fuel value : ℕ) (more : Bytes)
    → value < limit fuel
    → decode_rest (encode_rest fuel value ++ more) ≡ some (value, more)
unfolding decode_rest encode_rest
decode_rest-encode_rest zero value more h = rw (lt→ltb value 128 h)
decode_rest-encode_rest (suc fuel) value more h = elim (Bool-cases (ltb value 128)) [
  | inl low ↦ rw (low, decode_rest, low)
  | inr high ↦
      let rest = decode_rest-encode_rest fuel (value / 128) more (omega arith) in
      let first : ltb (value % 128 + 128) 128 ≡ false = le→ltb _ _ (omega arith) in
      rw (high, decode_rest, first, rest) (ap (λ v. some (v, more)) (omega arith))
]

-- Any integer below 2^32 that `EncodeInteger` writes is read back by the decoder of the RFC, which
-- stops exactly behind it.
pub decode_integer-encode_integer :
    (value : ℕ) (more : Bytes)
    → value < 2 ^ 32
    → decode_integer (encode_integer value ++ more) ≡ some (value, more)
unfolding decode_integer encode_integer
decode_integer-encode_integer value more h = elim (Bool-cases (ltb value 127)) [
  | inl low ↦
      let same : value % 128 ≡ value = omega (arith, ltb→lt value 127 low) in rw (low, same, low)
  | inr high ↦
      let rest = decode_rest-encode_rest 5 (value - 127) more (omega arith) in
      rw (high, rest) (ap (λ v. some (v, more)) (omega (arith, ltb→le value 127 high)))
]

-- Any string shorter than 2^32 that `EncodeString` writes is read back whole, and what follows it
-- is left.
pub decode_string-encode_string :
    (str more : Bytes)
    → length str < 2 ^ 32
    → decode_string (encode_string str ++ more) ≡ some (str, more)
unfolding decode_string encode_string
decode_string-encode_string str more h =
    let n = length str in
    let exact : n % 2 ^ 32 ≡ n = omega arith in
    let enough : ltb (length (str ++ more)) n ≡ false =
      le→ltb _ _ (omega (arith, length-append str more)) in
    rw (
      exact,
      append_assoc (encode_integer n) str more,
      decode_string,
      decode_integer-encode_integer n (str ++ more) h,
      enough,
      take-append_exact n str more refl,
      drop-append_exact n str more refl,
    )

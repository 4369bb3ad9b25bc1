-- ===== src/Protocol/Http/Text/Numerals.antt =====
-- `std::stoi` reads the numerals that the C++ library prints.
use network_lirbary.Common.{
  ℕ, zero, suc, ◌+◌, ◌-◌, ◌*◌, ◌/◌, ◌%◌, ◌^◌, ◌<◌, ◌≡◌, ◌≢◌, ◌==◌, lt→ltb, refl, sym, ap, ◌∙◌, true,
  false, ltb, [], ◌∷◌, ◌++◌, some, Bytes, arith, All, Bool-cases, inl, inr, ltb→lt,
}
use network_lirbary.Memory.Buffer.Crlf.{Plain}
use network_lirbary.Protocol.Client.{decimal}
use network_lirbary.Protocol.Http.Text.{
  is_digit, is_space, digits_from, digits, positive, signed, skip_spaces, to_size,
}

abbrev Digits : Bytes → Type 0
Digits = All (λ c. is_digit c ≡ true)

Digits-append : (xs ys : Bytes) → Digits xs → Digits ys → Digits (xs ++ ys)
Digits-append [] ys p q = q
Digits-append (x ∷ xs) ys p q = (p.0, Digits-append xs ys p.1 q)

digit-Digits : (d : ℕ) → d < 10 → is_digit (48 + d) ≡ true
digit-Digits d h = ground arith

digits_from-append :
    (n : ℕ) (xs ys : Bytes)
    → Digits xs
    → digits_from n (xs ++ ys) ≡ digits_from (digits_from n xs) ys
unfolding digits_from
digits_from-append n [] ys p = refl
digits_from-append n (x ∷ xs) ys p = rw (p.0) (digits_from-append (n * 10 + (x - 48)) xs ys p.1)

decimal-Digits : (fuel n : ℕ) → Digits (decimal fuel n)
unfolding decimal
decimal-Digits zero n = tt
decimal-Digits (suc fuel) n = elim (Bool-cases (ltb n 10)) [
  | inl e ↦ rw e (digit-Digits n (ltb→lt n 10 e), tt)
  | inr e ↦ rw e (
      Digits-append (decimal fuel (n / 10)) ((48 + n % 10) ∷ []) (decimal-Digits fuel (n / 10))
        (digit-Digits (n % 10) (omega arith), tt))
]

digits_from-one : (n d : ℕ) → d < 10 → digits_from n ((48 + d) ∷ []) ≡ n * 10 + d
unfolding digits_from
digits_from-one n d h = rw (digit-Digits d h) (omega arith)

digits_from-decimal : (fuel n : ℕ) → n < 10 ^ fuel → digits_from 0 (decimal fuel n) ≡ n
unfolding decimal digits_from
digits_from-decimal zero n h = omega arith
digits_from-decimal (suc fuel) n h = elim (Bool-cases (ltb n 10)) [
  | inl e ↦ rw e (digits_from-one 0 n (ltb→lt n 10 e) ∙ omega arith)
  | inr e ↦ rw e (
      digits_from-append 0 (decimal fuel (n / 10)) ((48 + n % 10) ∷ [])
        (decimal-Digits fuel (n / 10))
      ∙ ap (λ m. digits_from m ((48 + n % 10) ∷ []))
          (digits_from-decimal fuel (n / 10) (omega arith))
      ∙ digits_from-one (n / 10) (n % 10) (omega arith)
      ∙ omega arith)
]

front :
    (xs : Bytes)
    → Digits xs
    → xs ≢ []
    → (c : ℕ) × (cs : Bytes) × (xs ≡ c ∷ cs) × (is_digit c ≡ true)
front [] p e = absurd (e refl)
front (c ∷ cs) p e = (c, cs, refl, p.0)

one_more : (xs : Bytes) (x : ℕ) → (xs ++ x ∷ []) ≢ []
one_more [] x e = cc
one_more (y ∷ xs) x e = cc

decimal-some : (fuel n : ℕ) → decimal (suc fuel) n ≢ []
unfolding decimal
decimal-some fuel n = elim (Bool-cases (ltb n 10)) [
  | inl e ↦ rw e (one_more [] (48 + n))
  | inr e ↦ rw e (one_more (decimal fuel (n / 10)) (48 + n % 10))
]

to_size-digits :
    (c n : ℕ) (cs : Bytes)
    → is_digit c ≡ true
    → digits_from 0 (c ∷ cs) ≡ n
    → n < 2 ^ 31
    → to_size (c ∷ cs) ≡ some n
unfolding to_size skip_spaces signed digits positive
to_size-digits c n cs d e h =
    let no_space : is_space c ≡ false = ground arith in
    let no_minus : (c == b'-') ≡ false = ground arith in
    let no_plus : (c == b'+') ≡ false = ground arith in
    rw (no_space, no_minus, no_plus, d, e, lt→ltb n (2 ^ 31) h)

-- The value of a Content-Length header is read back where it fits an `int`.
pub to_size-decimal : (n : ℕ) → n < 2 ^ 31 → to_size (decimal 20 n) ≡ some n
to_size-decimal n h =
    let (c, cs, e, d) = front (decimal 20 n) (decimal-Digits 20 n) (decimal-some 19 n) in
    rw e (
      to_size-digits c n cs d (ap (digits_from 0) (sym e) ∙ digits_from-decimal 20 n (omega arith))
        h)

-- A numeral holds no carriage return.
Digits-Plain : (xs : Bytes) → Digits xs → Plain xs
Digits-Plain [] p = tt
Digits-Plain (x ∷ xs) p = (no_return x p.0, Digits-Plain xs p.1)
  where
    no_return : (c : ℕ) → is_digit c ≡ true → (c == 13) ≡ false
    no_return c d = ground arith

pub decimal-Plain : (n : ℕ) → Plain (decimal 20 n)
decimal-Plain n = Digits-Plain (decimal 20 n) (decimal-Digits 20 n)

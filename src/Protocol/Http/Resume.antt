-- ===== src/Protocol/Http/Resume.antt =====
-- The parser of requests on a sequence of bytes, and what more bytes behind it change.
use network_lirbary.Common.{
  ℕ, zero, suc, ◌+◌, ◌<◌, ◌≡◌, refl, sym, ap, ◌∙◌, subst, true, leb, leb→le, le→leb, inl, inr,
  Bool-cases, Option-cases, if◌then◌else◌, [], ◌∷◌, ◌++◌, Option, none, some, length, take, drop,
  Bytes, arith, length-append, length-drop, take-append_left, drop-append_left,
}
use network_lirbary.Common.Dict.{lookup}
use network_lirbary.Memory.Buffer.{search_crlf}
use network_lirbary.Memory.Buffer.Crlf.{search_crlf-more}
use network_lirbary.Protocol.Http.{
  HttpContext, State, expect_request_line, expect_headers, expect_body, done, Source, Parsed,
  incomplete, complete, throws, request_line, header_at, header_line, body_of_size, parse_body,
  headers_end, headers_loop, parse_in, parse_request, value_or_empty,
}
use network_lirbary.Protocol.Http.Text.{content_length, to_size, find_colon}

abbrev pub line_of_bytes : Bytes → Option ℕ → Option (Bytes × Bytes)
line_of_bytes xs none = none
line_of_bytes xs (some k) = some (take k xs, drop (k + 2) xs)

unfoldable pub split_line : Bytes → Option (Bytes × Bytes)
split_line xs = line_of_bytes xs (search_crlf xs)

unfoldable pub split_bytes : ℕ → Bytes → Option (Bytes × Bytes)
split_bytes len xs = if leb len (length xs) then some (take len xs, drop len xs) else none

-- A sequence of bytes as a source.
abbrev pub bytes_source : Source Bytes
bytes_source = record { next_line = split_line; next_bytes = split_bytes }

some_pair :
    (a b c d : Bytes)
    → Path (Option (Bytes × Bytes)) (some (a, b)) (some (c, d))
    → (a ≡ c) × (b ≡ d)
some_pair a b c d h = (cc, cc)

split_line-more :
    (xs ys line rest : Bytes)
    → split_line xs ≡ some (line, rest)
    → (split_line (xs ++ ys) ≡ some (line, rest ++ ys)) × (length rest < length xs)
unfolding split_line
split_line-more xs ys line rest = elim (Option-cases (search_crlf xs)) [
  | inl e ↦ rw e (λ h. cc)
  | inr (k, e) ↦
      let (more, room) = search_crlf-more xs ys k e in
      rw (e, more, take-append_left k xs ys (omega arith), drop-append_left (k + 2) xs ys room)
        (λ h.
          let (l, r) = some_pair (take k xs) (drop (k + 2) xs) line rest h in
          rw (l, r) (refl, rw (← r) (omega (arith, length-drop (k + 2) xs))))
]

split_bytes-more :
    (len : ℕ) (xs ys bytes rest : Bytes)
    → split_bytes len xs ≡ some (bytes, rest)
    → split_bytes len (xs ++ ys) ≡ some (bytes, rest ++ ys)
unfolding split_bytes
split_bytes-more len xs ys bytes rest = elim (Bool-cases (leb len (length xs))) [
  | inl e ↦
      let more : leb len (length (xs ++ ys)) ≡ true =
        le→leb len _ (omega (arith, leb→le len _ e, length-append xs ys)) in
      rw
        (
          e,
          more,
          take-append_left len xs ys (leb→le len _ e),
          drop-append_left len xs ys (leb→le len _ e),
        )
        (λ h. let (l, r) = some_pair (take len xs) (drop len xs) bytes rest h in rw (l, r))
  | inr e ↦ rw e (λ h. cc)
]

-- What the parser comes to when it is called again, with `ys` behind what it left.
abbrev pub resumed : ℕ → Parsed Bytes → Bytes → Option (Parsed Bytes)
resumed fuel (incomplete c rest) ys = parse_request bytes_source fuel c (rest ++ ys)
resumed fuel (complete c rest) ys = parse_request bytes_source fuel c (rest ++ ys)
resumed fuel (throws c rest) ys = some (throws c (rest ++ ys))

abbrev at : State → HttpContext → HttpContext
at s c = record c { state = s }

pub some_injective : (p q : Parsed Bytes) → Path (Option (Parsed Bytes)) (some p) (some q) → p ≡ q
some_injective p q e = cc

stopped :
    (h : ℕ) (p q : Parsed Bytes) (ys : Bytes) (whole : Option (Parsed Bytes))
    → Path (Option (Parsed Bytes)) (some p) (some q)
    → whole ≡ resumed h p ys
    → whole ≡ resumed h q ys
stopped h p q ys whole e r = r ∙ ap (λ t. resumed h t ys) (some_injective p q e)

header_at-state :
    (c c' : HttpContext) (line : Bytes) (colon : Option ℕ)
    → header_at c line colon ≡ some c'
    → c'.state ≡ c.state
unfolding header_at
header_at-state c c' line none h = ground arith
header_at-state c c' line (some k) h = ground arith

header_line-state :
    (c c' : HttpContext) (line : Bytes) → header_line c line ≡ some c' → c'.state ≡ c.state
unfolding header_line
header_line-state c c' line h = header_at-state c c' line (find_colon line) h

body-more :
    (fuel : ℕ) (c : HttpContext) (xs ys : Bytes)
    → resumed fuel (parse_body bytes_source (at expect_body c) xs) ys
      ≡ some (parse_body bytes_source (at expect_body c) (xs ++ ys))
unfolding parse_request parse_in parse_body body_of_size
body-more fuel c xs ys =
    elim (Option-cases (to_size (value_or_empty (lookup content_length c.headers)))) [
      | inl e ↦ rw (e, body_of_size)
      | inr (len, e) ↦ elim (Option-cases (split_bytes len xs)) [
        | inl none_yet ↦
            let waits : parse_body bytes_source (at expect_body c) xs
                ≡ incomplete (at expect_body c) xs =
              rw (e, none_yet, body_of_size) in
            ap (λ p. resumed fuel p ys) waits
        | inr ((bytes, rest), got) ↦
            rw (e, got, split_bytes-more len xs ys bytes rest got, body_of_size)
      ]
    ]

end-more :
    (fuel : ℕ) (c : HttpContext) (xs ys : Bytes) (size : Option Bytes)
    → resumed fuel (headers_end bytes_source c xs size) ys
      ≡ some (headers_end bytes_source c (xs ++ ys) size)
unfolding headers_end parse_request parse_in
end-more fuel c xs ys none = refl
end-more fuel c xs ys (some v) = body-more fuel c xs ys

-- Any two amounts of fuel that exceed the bytes there are serve alike.
pub headers_loop-fuel :
    (f g : ℕ) (c : HttpContext) (xs : Bytes)
    → length xs < f
    → length xs < g
    → headers_loop bytes_source f c xs ≡ headers_loop bytes_source g c xs
unfolding headers_loop
headers_loop-fuel zero g c xs p q = absurd (omega arith)
headers_loop-fuel (suc f) zero c xs p q = absurd (omega arith)
headers_loop-fuel (suc f) (suc g) c xs p q = elim (Option-cases (split_line xs)) [
  | inl e ↦ rw (e, headers_loop)
  | inr (([], rest), e) ↦ rw (e, headers_loop)
  | inr ((x ∷ line, rest), e) ↦ elim (Option-cases (header_line c (x ∷ line))) [
    | inl bad ↦ rw (e, bad, headers_loop)
    | inr (c', good) ↦
        let shorter = (split_line-more xs [] (x ∷ line) rest e).1 in
        rw (e, good, headers_loop) (headers_loop-fuel f g c' rest (omega arith) (omega arith))
  ]
]

-- The loop ends on any fuel that exceeds the bytes there are.
pub headers_loop-ends :
    (f : ℕ) (c : HttpContext) (xs : Bytes)
    → length xs < f
    → (p : Parsed Bytes) × (headers_loop bytes_source f c xs ≡ some p)
unfolding headers_loop
headers_loop-ends zero c xs p = absurd (omega arith)
headers_loop-ends (suc f) c xs p = elim (Option-cases (split_line xs)) [
  | inl e ↦ rw (e, headers_loop) (_, refl)
  | inr (([], rest), e) ↦ rw (e, headers_loop) (_, refl)
  | inr ((x ∷ line, rest), e) ↦ elim (Option-cases (header_line c (x ∷ line))) [
    | inl bad ↦ rw (e, bad, headers_loop) (_, refl)
    | inr (c', good) ↦
        let shorter = (split_line-more xs [] (x ∷ line) rest e).1 in
        rw (e, good, headers_loop) (headers_loop-ends f c' rest (omega arith))
  ]
]

parse_as :
    (s : State) (fuel : ℕ) (c : HttpContext) (xs : Bytes)
    → c.state ≡ s
    → parse_request bytes_source fuel c xs ≡ parse_in bytes_source s fuel c xs
unfolding parse_request
parse_as s fuel c xs e = ap (λ t. parse_in bytes_source t fuel c xs) e

headers_loop-more :
    (f g h : ℕ) (c : HttpContext) (xs ys : Bytes) (p : Parsed Bytes)
    → c.state ≡ expect_headers
    → length (xs ++ ys) < g
    → length (xs ++ ys) < h
    → headers_loop bytes_source f c xs ≡ some p
    → headers_loop bytes_source g c (xs ++ ys) ≡ resumed h p ys
unfolding headers_loop parse_in
headers_loop-more zero g h c xs ys p s room room' = λ e. cc
headers_loop-more (suc f) zero h c xs ys p s room room' = λ e. absurd (omega arith)
headers_loop-more (suc f) (suc g) h c xs ys p s room room' = elim (Option-cases (split_line xs)) [
  | inl e ↦
      rw (e, headers_loop)
        (λ stop. stopped h _ p ys _ stop (
          headers_loop-fuel (suc g) h c (xs ++ ys) room room'
          ∙ sym (parse_as expect_headers h c (xs ++ ys) s)))
  | inr (([], rest), e) ↦
      rw (e, (split_line-more xs ys [] rest e).0, headers_loop)
        (λ stop. stopped h _ p ys _ stop (sym (end-more h c rest ys _)))
  | inr ((x ∷ line, rest), e) ↦ elim (Option-cases (header_line c (x ∷ line))) [
    | inl bad ↦
        rw (e, (split_line-more xs ys (x ∷ line) rest e).0, bad, headers_loop)
          (λ stop. stopped h _ p ys _ stop refl)
    | inr (c', good) ↦
        let shorter = (split_line-more xs ys (x ∷ line) rest e).1 in
        rw (e, (split_line-more xs ys (x ∷ line) rest e).0, good, headers_loop)
          (headers_loop-more f g h c' rest ys p (header_line-state c c' (x ∷ line) good ∙ s)
            (omega (arith, length-append rest ys, length-append xs ys))
            (omega (arith, length-append rest ys, length-append xs ys)))
  ]
]

parse_in-fuel :
    (s : State) (f g : ℕ) (c : HttpContext) (xs : Bytes)
    → length xs < f
    → length xs < g
    → parse_in bytes_source s f c xs ≡ parse_in bytes_source s g c xs
unfolding parse_in
parse_in-fuel expect_request_line f g c xs p q = elim (Option-cases (split_line xs)) [
  | inl e ↦ rw (e, parse_in)
  | inr ((line, rest), e) ↦
      let shorter = (split_line-more xs [] line rest e).1 in
      rw (e, parse_in)
        (headers_loop-fuel f g (request_line c line) rest (omega arith) (omega arith))
]
parse_in-fuel expect_headers f g c xs p q = headers_loop-fuel f g c xs p q
parse_in-fuel expect_body f g c xs p q = refl
parse_in-fuel done f g c xs p q = refl

parse_in-ends :
    (s : State) (f : ℕ) (c : HttpContext) (xs : Bytes)
    → length xs < f
    → (p : Parsed Bytes) × (parse_in bytes_source s f c xs ≡ some p)
unfolding parse_in
parse_in-ends expect_request_line f c xs room = elim (Option-cases (split_line xs)) [
  | inl e ↦ rw (e, parse_in) (_, refl)
  | inr ((line, rest), e) ↦
      let shorter = (split_line-more xs [] line rest e).1 in
      rw (e, parse_in) (headers_loop-ends f (request_line c line) rest (omega arith))
]
parse_in-ends expect_headers f c xs room = headers_loop-ends f c xs room
parse_in-ends expect_body f c xs room = (_, refl)
parse_in-ends done f c xs room = (_, refl)

body_of_state :
    (h : ℕ) (c : HttpContext) (xs ys : Bytes)
    → c.state ≡ expect_body
    → some (parse_body bytes_source c (xs ++ ys)) ≡ resumed h (parse_body bytes_source c xs) ys
body_of_state h c xs ys s =
    subst
      (λ d.
        some (parse_body bytes_source d (xs ++ ys)) ≡ resumed h (parse_body bytes_source d xs) ys)
      (ap (λ t. at t c) (sym s)) (sym (body-more h c xs ys))

parse_in-more :
    (s : State) (f g h : ℕ) (c : HttpContext) (xs ys : Bytes) (p : Parsed Bytes)
    → c.state ≡ s
    → length (xs ++ ys) < g
    → length (xs ++ ys) < h
    → parse_in bytes_source s f c xs ≡ some p
    → parse_in bytes_source s g c (xs ++ ys) ≡ resumed h p ys
unfolding parse_in request_line
parse_in-more expect_request_line f g h c xs ys p s room room' =
    elim (Option-cases (split_line xs)) [
      | inl e ↦
          rw (e, parse_in)
            (λ stop. stopped h _ p ys _ stop (
              parse_in-fuel expect_request_line g h c (xs ++ ys) room room'
              ∙ sym (parse_as expect_request_line h c (xs ++ ys) s)))
      | inr ((line, rest), e) ↦
          let (more, shorter) = split_line-more xs ys line rest e in
          rw (e, more, parse_in)
            (headers_loop-more f g h (request_line c line) rest ys p refl
              (omega (arith, length-append rest ys, length-append xs ys))
              (omega (arith, length-append rest ys, length-append xs ys)))
    ]
parse_in-more expect_headers f g h c xs ys p s room room' =
    headers_loop-more f g h c xs ys p s room room'
parse_in-more expect_body f g h c xs ys p s room room' =
    λ stop. stopped h _ p ys _ stop (body_of_state h c xs ys s)
parse_in-more done f g h c xs ys p s room room' =
    λ stop. stopped h _ p ys _ stop (sym (parse_as done h c (xs ++ ys) s))

-- Where the parser stops on `xs` and is called again when `ys` has come, with what it left in
-- front of it, it comes to what one call on `xs ++ ys` comes to.
pub parse_request-resumed :
    (f g h : ℕ) (c : HttpContext) (xs ys : Bytes) (p : Parsed Bytes)
    → length (xs ++ ys) < g
    → length (xs ++ ys) < h
    → parse_request bytes_source f c xs ≡ some p
    → parse_request bytes_source g c (xs ++ ys) ≡ resumed h p ys
unfolding parse_request
parse_request-resumed f g h c xs ys p room room' e =
    parse_in-more c.state f g h c xs ys p refl room room' e

-- The parser returns on any fuel that exceeds the bytes there are.
pub parse_request-ends :
    (f : ℕ) (c : HttpContext) (xs : Bytes)
    → length xs < f
    → (p : Parsed Bytes) × (parse_request bytes_source f c xs ≡ some p)
unfolding parse_request
parse_request-ends f c xs room = parse_in-ends c.state f c xs room

-- ===== src/Protocol/Http/Simulation.antt =====
-- The parser of requests on the connection's buffer does what it does on the bytes that the buffer
-- holds.
use network_lirbary.Common.{
  ℕ, zero, suc, ◌+◌, ◌≤◌, ◌≡◌, ◌⊎◌, refl, ap, subst, leb, leb→le, inl, inr, Bool-cases,
  Option-cases, [], ◌∷◌, Option, none, some, length, drop, Bytes, arith,
}
use network_lirbary.Common.Dict.{lookup}
use network_lirbary.Memory.Buffer.{Buffer, search_crlf, retrieve, find_crlf}
use network_lirbary.Memory.Buffer.Crlf.{search_crlf-more, find_crlf-eq}
use network_lirbary.Memory.Buffer.Contents.{
  contents, Queued, readable_bytes-eq, peek_lem, retrieve-Queued, retrieve-writer-le,
}
use network_lirbary.Protocol.Http.{
  HttpContext, State, expect_request_line, expect_headers, expect_body, done, Parsed, incomplete,
  complete, throws, request_line, header_line, body_of_size, parse_body, headers_end, headers_loop,
  parse_in, parse_request, value_or_empty, buffer_source, line_of_buffer, bytes_of_buffer,
}
use network_lirbary.Protocol.Http.Text.{content_length, to_size}
use network_lirbary.Protocol.Http.Resume.{bytes_source, split_line, split_bytes}

-- A valid buffer that holds `xs` and has written no further than `w`.
pub record Kept (w : ℕ) (b : Buffer) (xs : Bytes) : Type 0 where
  pub queued : Queued b xs
  pub low : b.writer_index ≤ w

retrieve-Kept :
    (w n : ℕ) (b : Buffer) (xs : Bytes) → Kept w b xs → Kept w (retrieve b n) (drop n xs)
retrieve-Kept w n b xs k = record {
  queued =
      subst (λ ys. Queued (retrieve b n) (drop n ys)) k.queued.holds
        (retrieve-Queued b n k.queued.valid);
  low = omega (arith, retrieve-writer-le b n, k.low);
}

abbrev Piece : ℕ → Option (Bytes × Buffer) → Option (Bytes × Bytes) → Type 0
Piece w none none = Unit {0}
Piece w none (some q) = ⊥
Piece w (some p) none = ⊥
Piece w (some (l, b)) (some (l', xs)) = (l ≡ l') × Kept w b xs

line-Piece :
    (w : ℕ) (b : Buffer)
    → Kept w b (contents b)
    → Piece w (line_of_buffer b (find_crlf b)) (split_line (contents b))
unfolding line_of_buffer split_line
line-Piece w b k =
    rw (find_crlf-eq b k.queued.valid) (elim (Option-cases (search_crlf (contents b))) [
      | inl e ↦ rw e tt
      | inr (n, e) ↦
          let room = (search_crlf-more (contents b) [] n e).1 in
          rw e (peek_lem b n k.queued.valid (omega arith), retrieve-Kept w (n + 2) b (contents b) k)
    ])

bytes-Piece :
    (w len : ℕ) (b : Buffer)
    → Kept w b (contents b)
    → Piece w (bytes_of_buffer len b) (split_bytes len (contents b))
unfolding bytes_of_buffer split_bytes
bytes-Piece w len b k =
    rw (readable_bytes-eq b k.queued.valid) (elim (Bool-cases (leb len (length (contents b)))) [
      | inl e ↦ rw e (
        peek_lem b len k.queued.valid (leb→le len (length (contents b)) e),
        retrieve-Kept w len b (contents b) k,
      )
      | inr e ↦ rw e tt
    ])

at_contents {κ} :
    (w : ℕ) (b : Buffer) (xs : Bytes) (P : Bytes → Type κ)
    → Kept w b xs
    → (Kept w b (contents b) → P (contents b))
    → P xs
at_contents w b xs P k f =
    subst P k.queued.holds
      (f (record { queued = record { valid = k.queued.valid; holds = refl }; low = k.low }))

-- The same verdict, with the same context and the same bytes left.
abbrev pub Same : ℕ → Parsed Buffer → Parsed Bytes → Type 0
Same w (incomplete c b) (incomplete c' xs) = (c ≡ c') × Kept w b xs
Same w (complete c b) (complete c' xs) = (c ≡ c') × Kept w b xs
Same w (throws c b) (throws c' xs) = (c ≡ c') × Kept w b xs
Same w _ _ = ⊥

abbrev pub Alike : ℕ → Option (Parsed Buffer) → Option (Parsed Bytes) → Type 0
Alike w none none = Unit {0}
Alike w (some p) (some q) = Same w p q
Alike w _ _ = ⊥

-- Neither has a piece, or both have the same.
Piece-cases :
    (w : ℕ) (l : Option (Bytes × Buffer)) (r : Option (Bytes × Bytes))
    → Piece w l r
    → ((l ≡ none) × (r ≡ none))
      ⊎ ((piece : Bytes) × (b : Buffer) × (xs : Bytes) × (l ≡ some (piece, b))
          × (r ≡ some (piece, xs))
          × Kept w b xs)
Piece-cases w none none p = inl (refl, refl)
Piece-cases w none (some r) p = absurd p
Piece-cases w (some l) none p = absurd p
Piece-cases w (some (l, b)) (some (r, xs)) p = inr (r, b, xs, ap (λ t. some (t, b)) p.0, refl, p.1)

line-cases :
    (w : ℕ) (b : Buffer) (xs : Bytes)
    → Kept w b xs
    → ((line_of_buffer b (find_crlf b) ≡ none) × (split_line xs ≡ none))
      ⊎ ((line : Bytes) × (b' : Buffer) × (xs' : Bytes) × (line_of_buffer b (find_crlf b)
            ≡ some (line, b'))
          × (split_line xs ≡ some (line, xs'))
          × Kept w b' xs')
line-cases w b xs k = Piece-cases w _ _ (
    at_contents w b xs (λ ys. Piece w (line_of_buffer b (find_crlf b)) (split_line ys)) k
      (line-Piece w b))

parse_body-Same :
    (w : ℕ) (c : HttpContext) (b : Buffer) (xs : Bytes)
    → Kept w b xs
    → Same w (parse_body buffer_source c b) (parse_body bytes_source c xs)
unfolding parse_body body_of_size
parse_body-Same w c b xs k =
    elim (Option-cases (to_size (value_or_empty (lookup content_length c.headers)))) [
      | inl e ↦ rw e (refl, k)
      | inr (len, e) ↦
          elim (Piece-cases w (bytes_of_buffer len b) (split_bytes len xs) (
            at_contents w b xs (λ ys. Piece w (bytes_of_buffer len b) (split_bytes len ys)) k
              (bytes-Piece w len b))) [
                | inl (l, r) ↦ rw (e, l, r, body_of_size) (refl, k)
                | inr (bytes, b', xs', l, r, k') ↦ rw (e, l, r, body_of_size) (refl, k')
              ]
    ]

headers_end-Same :
    (w : ℕ) (c : HttpContext) (b : Buffer) (xs : Bytes) (size : Option Bytes)
    → Kept w b xs
    → Same w (headers_end buffer_source c b size) (headers_end bytes_source c xs size)
unfolding headers_end
headers_end-Same w c b xs none k = (refl, k)
headers_end-Same w c b xs (some v) k = parse_body-Same w (record c { state = expect_body }) b xs k

headers_loop-Alike :
    (w f : ℕ) (c : HttpContext) (b : Buffer) (xs : Bytes)
    → Kept w b xs
    → Alike w (headers_loop buffer_source f c b) (headers_loop bytes_source f c xs)
unfolding headers_loop
headers_loop-Alike w zero c b xs k = tt
headers_loop-Alike w (suc f) c b xs k = elim (line-cases w b xs k) [
  | inl (l, r) ↦ rw (l, r, headers_loop) (refl, k)
  | inr ([], b', xs', l, r, k') ↦
      rw (l, r, headers_loop) (headers_end-Same w c b' xs' (lookup content_length c.headers) k')
  | inr (x ∷ line, b', xs', l, r, k') ↦ elim (Option-cases (header_line c (x ∷ line))) [
    | inl bad ↦ rw (l, r, bad, headers_loop) (refl, k')
    | inr (c', good) ↦ rw (l, r, good, headers_loop) (headers_loop-Alike w f c' b' xs' k')
  ]
]

parse_in-Alike :
    (w : ℕ) (s : State) (f : ℕ) (c : HttpContext) (b : Buffer) (xs : Bytes)
    → Kept w b xs
    → Alike w (parse_in buffer_source s f c b) (parse_in bytes_source s f c xs)
unfolding parse_in
parse_in-Alike w expect_request_line f c b xs k = elim (line-cases w b xs k) [
  | inl (l, r) ↦ rw (l, r, parse_in) (refl, k)
  | inr (line, b', xs', l, r, k') ↦
      rw (l, r, parse_in) (headers_loop-Alike w f (request_line c line) b' xs' k')
]
parse_in-Alike w expect_headers f c b xs k = headers_loop-Alike w f c b xs k
parse_in-Alike w expect_body f c b xs k = parse_body-Same w c b xs k
parse_in-Alike w done f c b xs k = (refl, k)

pub parse_request-Alike :
    (w f : ℕ) (c : HttpContext) (b : Buffer) (xs : Bytes)
    → Kept w b xs
    → Alike w (parse_request buffer_source f c b) (parse_request bytes_source f c xs)
unfolding parse_request
parse_request-Alike w f c b xs k = parse_in-Alike w c.state f c b xs k

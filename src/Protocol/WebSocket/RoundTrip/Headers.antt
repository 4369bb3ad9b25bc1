-- ===== src/Protocol/WebSocket/RoundTrip/Headers.antt =====
-- What the parser makes of the header of an unmasked frame, and of the payload behind it.
use network_lirbary.Common.{
  ℕ, suc, ◌+◌, ◌*◌, ◌/◌, ◌%◌, ◌^◌, ◌<◌, ◌≡◌, refl, ◌∙◌, ap, true, false, ◌==◌, ltb, le→ltb, ◌∷◌,
  ◌++◌, some, length, drop, Bytes, sub64, take-append_exact, length-append, arith,
}
use network_lirbary.Protocol.WebSocket.Parser.{
  State, Frame, FrameParser, go, fixed_header, extended_length, in_header, read_payload, step2,
  step3, step4, length_known, parse,
}

-- The frame that `WebSocketStreamContext::Write` announces.
abbrev pub text_frame : Bytes → Frame
text_frame payload = record { fin = true; opcode = 1; masked = false; payload = payload }

abbrev pub unmasked : FrameParser → FrameParser
unmasked p = record p {
  current_frame = record p.current_frame { fin = true; opcode = 1; masked = false };
}

-- The parser after a whole unmasked frame.
abbrev pub finished : FrameParser → Bytes → FrameParser
finished q body = record q {
  state = State.header;
  current_frame = record q.current_frame { payload = body };
}

pub payload_read :
    (q : FrameParser) (bytes body rest : Bytes) (k : ℕ)
    → drop k bytes ≡ body ++ rest
    → length bytes ≡ k + (length body + length rest)
    → length bytes < 2 ^ 63
    → q.payload_length ≡ length body
    → q.current_frame.masked ≡ false
    → read_payload q bytes k
      ≡ (some ((finished q body).current_frame, k + length body), finished q body)
unfolding read_payload
payload_read q bytes body rest k d n small e m =
    let left : sub64 (length bytes) k ≡ length body + length rest = omega arith in
    let enough : ltb (length body + length rest) (length body) ≡ false = le→ltb _ _ (omega arith) in
    rw (e, d, m, left, enough, take-append_exact (length body) body rest refl)

-- The header of a short frame.
pub short_header :
    (p : FrameParser) (n : ℕ) (more : Bytes)
    → n < 126
    → fixed_header p (129 ∷ n ∷ more) ≡ go (length_known (unmasked p) n) 2
unfolding fixed_header
short_header p n more h =
    let code : n % 128 ≡ n = omega arith in
    let low : (n / 128 % 2 == 1) ≡ false = ground arith in
    let long : ltb (suc (suc (length more))) 2 ≡ false = le→ltb _ _ (omega arith) in
    let not_126 : (n == 126) ≡ false = ground arith in
    let not_127 : (n == 127) ≡ false = ground arith in rw (low, code, long, not_126, not_127)

pub extended_header :
    (p : FrameParser) (more : Bytes)
    → fixed_header p (129 ∷ 126 ∷ more)
      ≡ go (record (unmasked p) { state = State.payload_length; bytes_needed = 2 }) 2
unfolding fixed_header
extended_header p more = rw (le→ltb (suc (suc (length more))) 2 (omega arith))

pub huge_header :
    (p : FrameParser) (more : Bytes)
    → fixed_header p (129 ∷ 127 ∷ more)
      ≡ go (record (unmasked p) { state = State.payload_length; bytes_needed = 8 }) 2
unfolding fixed_header
huge_header p more = rw (le→ltb (suc (suc (length more))) 2 (omega arith))

pub short_frame :
    (p : FrameParser) (body rest : Bytes)
    → p.state ≡ State.header
    → length body + length rest < 2 ^ 62
    → length body < 126
    → parse p (129 ∷ length body ∷ (body ++ rest)) ≡ (
      some (text_frame body, 2 + length body),
      finished (length_known (unmasked p) (length body)) body,
    )
unfolding parse
short_frame p body rest ready small h =
    ap (λ st. step4 (step3 (step2 (in_header st p bytes) bytes) bytes) bytes) ready
    ∙ ap (λ g. step4 (step3 (step2 g bytes) bytes) bytes)
        (short_header p (length body) (body ++ rest) h)
    ∙ payload_read (length_known (unmasked p) (length body)) bytes body rest 2 refl
        (omega (arith, length-append body rest)) (omega (arith, length-append body rest)) refl refl
  where
    bytes : Bytes
    bytes = 129 ∷ length body ∷ (body ++ rest)

pub length16 :
    (q : FrameParser) (a b n : ℕ) (more : Bytes)
    → n < 65536
    → length more < 2 ^ 62
    → q.bytes_needed ≡ 2
    → extended_length q (a ∷ b ∷ (n / 2 ^ 8 % 256) ∷ (n % 256) ∷ more) 2 ≡ go (length_known q n) 4
unfolding extended_length
length16 q a b n more h small two =
    let left : sub64 (suc (suc (suc (suc (length more))))) 2 ≡ suc (suc (length more)) =
      omega arith in
    let enough : ltb (suc (suc (length more))) 2 ≡ false = le→ltb _ _ (omega arith) in
    let value : n / 2 ^ 8 % 256 * 2 ^ 8 + n % 256 ≡ n = omega arith in rw (two, left, enough, value)

pub extended_frame :
    (p : FrameParser) (body rest : Bytes)
    → p.state ≡ State.header
    → length body + length rest < 2 ^ 62
    → length body < 65536
    → parse p (129 ∷ 126 ∷ (length body / 2 ^ 8 % 256) ∷ (length body % 256) ∷ (body ++ rest)) ≡ (
      some (text_frame body, 4 + length body),
      finished
          (length_known
            (record (unmasked p) { state = State.payload_length; bytes_needed = 2 })
            (length body))
          body,
    )
unfolding parse
extended_frame p body rest ready small h =
    ap (λ st. step4 (step3 (step2 (in_header st p bytes) bytes) bytes) bytes) ready
    ∙ ap (λ g. step4 (step3 (step2 g bytes) bytes) bytes) (extended_header p _)
    ∙ ap (λ g. step4 (step3 g bytes) bytes)
        (length16 q 129 126 (length body) (body ++ rest) h (omega (arith, length-append body rest))
          refl)
    ∙ payload_read (length_known q (length body)) bytes body rest 4 refl
        (omega (arith, length-append body rest)) (omega (arith, length-append body rest)) refl refl
  where
    bytes : Bytes
    bytes = 129 ∷ 126 ∷ (length body / 2 ^ 8 % 256) ∷ (length body % 256) ∷ (body ++ rest)

    q : FrameParser
    q = record (unmasked p) { state = State.payload_length; bytes_needed = 2 }

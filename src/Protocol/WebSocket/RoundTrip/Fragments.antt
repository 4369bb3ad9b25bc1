-- ===== src/Protocol/WebSocket/RoundTrip/Fragments.antt =====
-- Frames that arrive in two pieces.
use network_lirbary.Common.{
  ℕ, ◌+◌, ◌-◌, ◌^◌, ◌≤◌, ◌<◌, ◌≡◌, ◌≢◌, get_or, refl, sym, ◌∙◌, ap, lt→ltb, [], ◌∷◌, ◌++◌, none,
  some, length, take, drop, Bytes, sub64, take-append-drop, length-take, length-drop, length-append,
  arith,
}
use network_lirbary.Protocol.WebSocket.Parser.{
  State, FrameParser, in_header, read_payload, step2, step3, step4, length_known, parse, Parsed,
}
use network_lirbary.Protocol.WebSocket.Encoder.{frame_header, write_frame}
use network_lirbary.Protocol.WebSocket.RoundTrip.Headers.{
  text_frame, unmasked, payload_read, short_header,
}

payload_missing :
    (q : FrameParser) (bytes : Bytes) (k : ℕ)
    → k ≤ length bytes
    → length bytes < k + q.payload_length
    → length bytes < 2 ^ 63
    → read_payload q bytes k ≡ (none, q)
unfolding read_payload
payload_missing q bytes k inside short small =
    let left : sub64 (length bytes) k ≡ length bytes - k = omega arith in
    rw (left, lt→ltb (length bytes - k) q.payload_length (omega arith))

cut_frame :
    (p : FrameParser) (n : ℕ) (front : Bytes)
    → p.state ≡ State.header
    → n < 126
    → length front < n
    → parse p (129 ∷ n ∷ front) ≡ (none, length_known (unmasked p) n)
unfolding parse
cut_frame p n front ready h short =
    ap (λ st. step4 (step3 (step2 (in_header st p bytes) bytes) bytes) bytes) ready
    ∙ ap (λ g. step4 (step3 (step2 g bytes) bytes) bytes) (short_header p n front h)
    ∙ payload_missing (length_known (unmasked p) n) bytes 2 (omega arith) (omega arith)
        (omega arith)
  where
    bytes : Bytes
    bytes = 129 ∷ n ∷ front

first_wrong :
    (body more : Bytes)
    → 0 < length body
    → get_or body 0 0 ≢ 129
    → take (length body) (129 ∷ more) ≢ body
first_wrong [] more some_there other e = absurd (omega arith)
first_wrong (x ∷ body) more some_there other e = other (sym (ap (λ bs. get_or bs 0 0) e))

-- A frame of a short unmasked payload, whose first byte is not 129, which no UTF-8 text begins
-- with, arrives in two pieces, the first of which ends within the payload. The header is consumed
-- by the parser and not from the buffer, so the second call takes the frame's first bytes, header
-- included, for the payload: what it returns is not the payload that was sent.
pub parse_fragmented :
    (p : FrameParser) (body front back : Bytes)
    → p.state ≡ State.header
    → length body < 126
    → body ≡ front ++ back
    → 0 < length back
    → get_or body 0 0 ≢ 129
    → let whole = write_frame body in
      let (r, q) = parse p (129 ∷ length body ∷ front) in
      (r ≡ none)
      × ((parse q whole).0 ≡ some (text_frame (take (length body) whole), length body))
      × (take (length body) whole ≢ body)
unfolding write_frame frame_header parse
parse_fragmented p body front back ready h e some_left other =
    let n = length body in
    let q = length_known (unmasked p) n in
    let first =
      cut_frame p n front ready h (omega (arith, ap length e, length-append front back)) in
    let whole : Bytes = 129 ∷ n ∷ body in
    rw (lt→ltb n 126 h) (
      ap (λ (r : Parsed). r.0) first,
      ap (λ (r : Parsed). (parse r.1 whole).0) first
          ∙ ap (λ (r : Parsed). r.0)
              (payload_read q whole (take n whole) (drop n whole) 0 (sym (take-append-drop n whole))
                (omega (arith, length-take n whole, length-drop n whole)) (omega arith)
                (omega (arith, length-take n whole)) refl)
          ∙ ap (λ k. some (text_frame (take n whole), k)) (omega (arith, length-take n whole)),
      first_wrong body (n ∷ body) (omega (arith, ap length e, length-append front back)) other,
    )

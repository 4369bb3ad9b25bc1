-- ===== src/Protocol/WebSocket/RoundTrip/Large.antt =====
-- Frames with a 64-bit length.
use network_lirbary.Common.{
  ℕ, ◌+◌, ◌/◌, ◌%◌, ◌^◌, ◌≤◌, ◌<◌, ◌≡◌, sym, ◌∙◌, ap, le→ltb, ◌∷◌, ◌++◌, none, length, Bytes, sub64,
  length-append, arith,
}
use network_lirbary.Protocol.WebSocket.Parser.{
  State, FrameParser, wait, extended_length, accept_length, in_header, step2, step3, step4, be64,
  parse, Parsed,
}
use network_lirbary.Protocol.WebSocket.Encoder.{frame_header, write_frame, length_bytes}
use network_lirbary.Protocol.WebSocket.RoundTrip.Headers.{unmasked, huge_header}

-- The 64-bit length of a large frame, as the parser reads it.
length64_large :
    (n : ℕ) → 65536 ≤ n → n < 2 ^ 32 → (more : Bytes) → 2 ^ 30 < be64 8 0 (length_bytes n ++ more)
length64_large n h k more = omega arith

accept_large : (q : FrameParser) (l offset : ℕ) → 2 ^ 30 < l → accept_length q l offset ≡ wait q
unfolding accept_length
accept_large q l offset h = ground arith

accept_msb :
    (q : FrameParser) (l offset : ℕ) → l / 2 ^ 63 % 2 ≡ 1 → accept_length q l offset ≡ wait q
unfolding accept_length
accept_msb q l offset h = rw h

-- The parser that waits for a 64-bit length.
abbrev waiting : FrameParser → FrameParser
waiting p = record (unmasked p) { state = State.payload_length; bytes_needed = 8 }

abbrev large : ℕ → Bytes → Bytes
large n more = 129 ∷ 127 ∷ (length_bytes n ++ more)

length-large : (n : ℕ) (more : Bytes) → length (large n more) ≡ 10 + length more
length-large n more = omega arith

-- Read behind the two header bytes, the length is too large.
refused_first :
    (p : FrameParser) (n : ℕ) (more : Bytes)
    → 65536 ≤ n
    → n < 2 ^ 32
    → length more < 2 ^ 62
    → extended_length (waiting p) (large n more) 2 ≡ wait (waiting p)
unfolding extended_length
refused_first p n more h k small =
    let left : sub64 (length (large n more)) 2 ≡ 8 + length more =
      omega (arith, length-large n more) in
    rw (left, le→ltb (8 + length more) 8 (omega arith))
      (accept_large (waiting p) (be64 8 0 (length_bytes n ++ more)) 10 (length64_large n h k more))

-- Read from the front of the frame, the length has its top bit set.
refused_again :
    (p : FrameParser) (n : ℕ) (more : Bytes)
    → length more < 2 ^ 62
    → extended_length (waiting p) (large n more) 0 ≡ wait (waiting p)
unfolding extended_length
refused_again p n more small =
    let left : sub64 (length (large n more)) 0 ≡ 10 + length more =
      omega (arith, length-large n more) in
    rw (left, le→ltb (10 + length more) 8 (omega arith))
      (accept_msb (waiting p) (be64 8 0 (large n more)) 8 (omega arith))

large_frame :
    (p : FrameParser) (n : ℕ) (more : Bytes)
    → p.state ≡ State.header
    → 65536 ≤ n
    → n < 2 ^ 32
    → length more < 2 ^ 62
    → parse p (large n more) ≡ (none, waiting p)
unfolding parse
large_frame p n more ready h k small =
    ap
      (λ st.
        step4 (step3 (step2 (in_header st p (large n more)) (large n more)) (large n more))
          (large n more))
      ready
    ∙ ap (λ g. step4 (step3 (step2 g (large n more)) (large n more)) (large n more))
        (huge_header p _)
    ∙ ap (λ g. step4 (step3 g (large n more)) (large n more)) (refused_first p n more h k small)

large_frame_again :
    (p : FrameParser) (n : ℕ) (more : Bytes)
    → length more < 2 ^ 62
    → parse (waiting p) (large n more) ≡ (none, waiting p)
unfolding parse
large_frame_again p n more small =
    ap (λ g. step4 (step3 g (large n more)) (large n more)) (refused_again p n more small)

-- No parser that waits for a header accepts a frame that the server writes for a payload of 65536
-- bytes or more and fewer than 2^32, since the server writes the length's lowest byte first:
-- `Parse` returns false, and returns false again when it is called on the same bytes with any
-- others behind them, at which it changes no more.
pub parse-write_frame_large :
    (p : FrameParser) (body rest later : Bytes)
    → p.state ≡ State.header
    → 65536 ≤ length body
    → length body < 2 ^ 32
    → length rest + length later < 2 ^ 61
    → let q = (parse p (write_frame body ++ rest)).1 in
      ((parse p (write_frame body ++ rest)).0 ≡ none)
      × (parse q (write_frame body ++ (rest ++ later)) ≡ (none, q))
unfolding write_frame frame_header
parse-write_frame_large p body rest later ready h k small =
    let n = length body in
    let first = large_frame p n (body ++ rest) ready h k (omega (arith, length-append body rest)) in
    rw (le→ltb n 126 (omega arith), le→ltb n 65536 h)
      (
        ap (λ (r : Parsed). r.0) first,
        ap (λ (r : Parsed). parse r.1 (large n (body ++ (rest ++ later)))) first
            ∙ large_frame_again p n (body ++ (rest ++ later))
                (omega (arith, length-append body (rest ++ later), length-append rest later))
            ∙ ap (λ q. (none, q)) (sym (ap (λ (r : Parsed). r.1) first)),
      )

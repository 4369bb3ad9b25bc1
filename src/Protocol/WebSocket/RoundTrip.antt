-- ===== src/Protocol/WebSocket/RoundTrip.antt =====
-- The parser on the frames that the server writes.
pub mod Headers
pub mod Large
pub mod Fragments
pub mod Masked
use network_lirbary.Common.{
  ℕ, suc, ◌+◌, ◌-◌, ◌*◌, ◌/◌, ◌%◌, ◌^◌, ◌≤◌, ◌<◌, ◌≡◌, refl, sym, ◌∙◌, ap, true, false, ◌==◌, ltb,
  Bool-cases, inl, inr, ltb→lt, le→ltb, lt→ltb, ◌∷◌, ◌++◌, none, some, length, take, drop, Bytes,
  sub64, take-append_exact, take-append-drop, length-take, length-drop, length-append, arith,
}
use network_lirbary.Protocol.WebSocket.Parser.{
  State, Frame, FrameParser, go, wait, fixed_header, extended_length, accept_length, in_header,
  read_payload, step2, step3, step4, length_known, be64, parse, Parsed,
}
use network_lirbary.Protocol.WebSocket.Encoder.{frame_header, write_frame, length_bytes}
use Headers.{
  text_frame, unmasked, finished, payload_read, short_header, extended_header, huge_header,
  short_frame, length16, extended_frame,
}

-- A parser that waits for a header reads any frame that the server writes for a payload of fewer
-- than 65536 bytes, whatever follows it: it returns the final text frame with exactly this
-- payload, has consumed exactly the frame's bytes, and waits for a header again.
pub parse-write_frame :
    (p : FrameParser) (body rest : Bytes)
    → p.state ≡ State.header
    → length body < 65536
    → length rest < 2 ^ 61
    → ((parse p (write_frame body ++ rest)).0 ≡ some (text_frame body, length (write_frame body)))
      × ((parse p (write_frame body ++ rest)).1.state ≡ State.header)
unfolding write_frame frame_header
parse-write_frame p body rest ready h small = elim (Bool-cases (ltb (length body) 126)) [
  | inl short ↦
      let e = short_frame p body rest ready (omega arith) (ltb→lt _ _ short) in
      rw short (
        ap (λ (r : Parsed). r.0) e ∙ ap (λ k. some (text_frame body, k)) (omega arith),
        ap (λ (r : Parsed). r.1.state) e,
      )
  | inr long ↦
      let e = extended_frame p body rest ready (omega arith) h in
      rw (long, lt→ltb (length body) 65536 h)
        (
          ap (λ (r : Parsed). r.0) e ∙ ap (λ k. some (text_frame body, k)) (omega arith),
          ap (λ (r : Parsed). r.1.state) e,
        )
]

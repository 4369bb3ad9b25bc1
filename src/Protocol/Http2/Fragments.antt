-- ===== src/Protocol/Http2/Fragments.antt =====
-- Frames that arrive in two pieces.
use network_lirbary.Common.{
  ◌+◌, ◌^◌, ◌<◌, ◌≤◌, ◌≡◌, refl, sym, ap, ◌∙◌, ltb, lt→ltb, inl, inr, Bool-cases, ltb→le, ltb→lt,
  ◌++◌, none, some, length, take, drop, Bytes, take-append_left, drop-append_left, take-append-drop,
  length-drop, arith,
}
use network_lirbary.Memory.Buffer.{Buffer, readable_bytes, retrieve, append}
use network_lirbary.Memory.Buffer.Contents.{
  IsValid, contents, Queued, readable_bytes-eq, append-Queued, retrieve-writer-le,
}
use network_lirbary.Protocol.Http2.{
  State, FrameHeader, Frame, FrameParser, read_payload, read_frame, parse_in, parse, write_header,
}
use network_lirbary.Protocol.Http2.RoundTrip.{
  Fits, ready, header_read, after_header, behind_header, payload-eq, payload-missing,
  parse-write_header, take-write_header, drop-write_header,
}

-- The first answer, the second, and the buffer after it.
abbrev pub Resumes : FrameParser → Buffer → Bytes → Frame → Bytes → Type 0
Resumes p b back frame more =
    ((parse p b).0 ≡ none)
    × ((parse (parse p b).1 (append (parse p b).2 back)).0 ≡ some frame)
    × Queued (parse (parse p b).1 (append (parse p b).2 back)).2 more

resumed :
    (h : FrameHeader) (b : Buffer) → parse (behind_header h) b ≡ read_payload (behind_header h) b
unfolding parse parse_in
resumed h b = refl

module _ (p : FrameParser) (b : Buffer) (h : FrameHeader) (payload more back : Bytes)
    (r : p.state ≡ State.reading_header) (f : Fits h) (n : h.length ≡ length payload)
    (v : IsValid b) (e : contents b ++ back ≡ write_header h ++ (payload ++ more))
    (room : b.writer_index + length back < 2 ^ 63) where
  few : length (contents b) < 9 → read_frame p b ≡ (none, p, b)
  unfolding read_frame
  few short = rw (lt→ltb (readable_bytes b) 9 (omega (arith, readable_bytes-eq b v)))

  -- Not even the header is there.
  short_header :
      length (contents b) < 9 → Resumes p b back (record { header = h; payload = payload }) more
  short_header short =
      let wait : parse p b ≡ (none, p, b) = ready p b r ∙ few short in
      let q = append-Queued b back v room in
      let whole = parse-write_header p (append b back) h payload more r f n q.valid (q.holds ∙ e) in
      rw wait (refl, whole.0, whole.2)

  front : 9 ≤ length (contents b) → contents b ≡ write_header h ++ drop 9 (contents b)
  front there =
      sym (take-append-drop 9 (contents b))
      ∙ ap (λ bs. bs ++ drop 9 (contents b))
          (sym (take-append_left 9 (contents b) back there)
            ∙ ap (take 9) e
            ∙ take-write_header h (payload ++ more))

  back_payload : 9 ≤ length (contents b) → drop 9 (contents b) ++ back ≡ payload ++ more
  back_payload there =
      sym (drop-append_left 9 (contents b) back there)
      ∙ ap (drop 9) e
      ∙ drop-write_header h (payload ++ more)

  -- The header is there, and is kept by the parser.
  short_payload :
      9 ≤ length (contents b)
      → length (contents b) < 9 + length payload
      → Resumes p b back (record { header = h; payload = payload }) more
  short_payload there short =
      let b1 = retrieve b 9 in
      let q = after_header b h (drop 9 (contents b)) v (front there) in
      let wait : parse p b ≡ (none, behind_header h, b1) =
        ready p b r
        ∙ header_read p b h (drop 9 (contents b)) f v (front there)
        ∙ payload-missing (behind_header h) b1 q.valid
            (omega (arith, n, ap length q.holds, length-drop 9 (contents b))) in
      let q2 = append-Queued b1 back q.valid (omega (arith, retrieve-writer-le b 9, room)) in
      let whole =
        payload-eq (behind_header h) (append b1 back) payload more q2.valid
          (q2.holds ∙ ap (λ bs. bs ++ back) q.holds ∙ back_payload there) n in
      rw (wait, resumed h (append b1 back)) (refl, whole.0, whole.2)

-- A frame that arrives in two pieces, the first of which is not the whole frame: on the first
-- piece `Parse` returns nothing, and once the second piece is appended to the buffer it returns
-- exactly the frame that was sent and leaves what follows it.
pub parse_in_two :
    (p : FrameParser) (b : Buffer) (h : FrameHeader) (payload more back : Bytes)
    → p.state ≡ State.reading_header
    → Fits h
    → h.length ≡ length payload
    → IsValid b
    → contents b ++ back ≡ write_header h ++ (payload ++ more)
    → length (contents b) < 9 + length payload
    → b.writer_index + length back < 2 ^ 63
    → Resumes p b back (record { header = h; payload = payload }) more
parse_in_two p b h payload more back r f n v e short room =
    elim (Bool-cases (ltb (length (contents b)) 9)) [
      | inl few ↦ short_header p b h payload more back r f n v e room (ltb→lt _ _ few)
      | inr there ↦ short_payload p b h payload more back r f n v e room (ltb→le _ _ there) short
    ]

-- ===== src/Protocol/Http2/RoundTrip.antt =====
-- The parser on frames, in one piece or in two.
use network_lirbary.Common.{
  ◌+◌, ◌^◌, ◌<◌, ◌≡◌, refl, ap, ap₂, ◌∙◌, false, ltb, if◌then◌else◌, le→ltb, lt→ltb, [], ◌∷◌, ◌++◌,
  none, some, length, take, drop, Bytes, take-append_exact, drop-append_exact, length-append, arith,
}
use network_lirbary.Memory.Buffer.{Buffer, readable_bytes, peek, retrieve}
use network_lirbary.Memory.Buffer.Contents.{
  IsValid, contents, Queued, readable_bytes-eq, peek_lem, retrieve-Queued,
}
use network_lirbary.Protocol.Http2.{
  State, FrameHeader, FrameParser, read_header, read_payload, read_frame, parse_in, parse,
  write_header,
}

-- The fields fit into the nine bytes.
pub record Fits (h : FrameHeader) : Type 0 where
  pub length_fits : h.length < 2 ^ 24
  pub stream_fits : h.stream_id < 2 ^ 31

pub read_header-write_header : (h : FrameHeader) → Fits h → read_header (write_header h) ≡ h
unfolding write_header
read_header-write_header h f =
    ap₂ (λ n i. record { length = n; frame_type = h.frame_type; flags = h.flags; stream_id = i })
      (omega (arith, f.length_fits)) (omega (arith, f.stream_fits))

behind :
    (b : Buffer) (payload more : Bytes)
    → IsValid b
    → contents b ≡ payload ++ more
    → Queued (if ltb 0 (length payload) then retrieve b (length payload) else b) more
behind b [] more v e = record { valid = v; holds = e }
behind b (x ∷ xs) more v e =
    let payload : Bytes = x ∷ xs in
    let q = retrieve-Queued b (length payload) v in
    rw (lt→ltb 0 (length payload) (omega arith)) (record {
      valid = q.valid;
      holds =
          q.holds
          ∙ ap (drop (length payload)) e
          ∙ drop-append_exact (length payload) payload more refl;
    })

-- A payload that is there is returned, and what follows it is left.
pub payload-eq :
    (p : FrameParser) (b : Buffer) (payload more : Bytes)
    → IsValid b
    → contents b ≡ payload ++ more
    → p.current_header.length ≡ length payload
    → ((read_payload p b).0 ≡ some (record { header = p.current_header; payload = payload }))
      × ((read_payload p b).1.state ≡ State.reading_header)
      × Queued (read_payload p b).2 more
unfolding read_payload
payload-eq p b payload more v e n =
    let there : readable_bytes b ≡ length payload + length more =
      readable_bytes-eq b v ∙ ap length e ∙ length-append payload more in
    let taken : peek b (length payload) ≡ payload =
      peek_lem b (length payload) v (omega (arith, ap length e, length-append payload more))
      ∙ ap (take (length payload)) e
      ∙ take-append_exact (length payload) payload more refl in
    simp (n, there, le→ltb (length payload + length more) (length payload) (omega arith))
      (
        ap (λ bs. some (record { header = p.current_header; payload = bs })) taken,
        refl,
        behind b payload more v e,
      )

-- A payload that is not all there is waited for.
pub payload-missing :
    (p : FrameParser) (b : Buffer)
    → IsValid b
    → length (contents b) < p.current_header.length
    → read_payload p b ≡ (none, p, b)
unfolding read_payload
payload-missing p b v h =
    rw (lt→ltb (readable_bytes b) p.current_header.length (omega (arith, readable_bytes-eq b v)))

-- The parser behind a header.
abbrev pub behind_header : FrameHeader → FrameParser
behind_header h = record { state = State.reading_payload; current_header = h }

length-write_header : (h : FrameHeader) → length (write_header h) ≡ 9
unfolding write_header
length-write_header h = refl

pub take-write_header :
    (h : FrameHeader) (more : Bytes) → take 9 (write_header h ++ more) ≡ write_header h
unfolding write_header
take-write_header h more = refl

pub drop-write_header : (h : FrameHeader) (more : Bytes) → drop 9 (write_header h ++ more) ≡ more
unfolding write_header
drop-write_header h more = refl

pub after_header :
    (b : Buffer) (h : FrameHeader) (more : Bytes)
    → IsValid b
    → contents b ≡ write_header h ++ more
    → Queued (retrieve b 9) more
after_header b h more v e =
    let q = retrieve-Queued b 9 v in
    record { valid = q.valid; holds = q.holds ∙ ap (drop 9) e ∙ drop-write_header h more }

pub header_read :
    (p : FrameParser) (b : Buffer) (h : FrameHeader) (more : Bytes)
    → Fits h
    → IsValid b
    → contents b ≡ write_header h ++ more
    → read_frame p b ≡ read_payload (behind_header h) (retrieve b 9)
unfolding read_frame
header_read p b h more f v e =
    let there : length (contents b) ≡ 9 + length more =
      ap length e
      ∙ length-append (write_header h) more
      ∙ ap (λ n. n + length more) (length-write_header h) in
    let bytes : peek b 9 ≡ write_header h =
      peek_lem b 9 v (omega (arith, there)) ∙ ap (take 9) e ∙ take-write_header h more in
    let full : ltb (readable_bytes b) 9 ≡ false =
      le→ltb _ _ (omega (arith, readable_bytes-eq b v, there)) in
    rw full (
      ap (λ hd. read_payload (behind_header hd) (retrieve b 9))
        (ap read_header bytes ∙ read_header-write_header h f))

pub ready :
    (p : FrameParser) (b : Buffer) → p.state ≡ State.reading_header → parse p b ≡ read_frame p b
unfolding parse parse_in
ready p b e = ap (λ st. parse_in st p b) e

-- A parser that waits for a header, on a valid buffer that begins with a whole frame whose length
-- and stream number fit their fields: `Parse` returns exactly this frame, waits for a header
-- again, and leaves exactly what follows the frame.
pub parse-write_header :
    (p : FrameParser) (b : Buffer) (h : FrameHeader) (payload more : Bytes)
    → p.state ≡ State.reading_header
    → Fits h
    → h.length ≡ length payload
    → IsValid b
    → contents b ≡ write_header h ++ (payload ++ more)
    → ((parse p b).0 ≡ some (record { header = h; payload = payload }))
      × ((parse p b).1.state ≡ State.reading_header)
      × Queued (parse p b).2 more
parse-write_header p b h payload more r f n v e =
    let q = after_header b h (payload ++ more) v e in
    rw (ready p b r ∙ header_read p b h (payload ++ more) f v e)
      (payload-eq (behind_header h) (retrieve b 9) payload more q.valid q.holds n)

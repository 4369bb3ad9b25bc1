-- ===== src/Protocol/Http2/Session/Delivery.antt =====
-- What a session makes of the frames in its input buffer.
use network_lirbary.Common.{
  ℕ, zero, suc, ◌<◌, ◌≡◌, refl, sym, ap, ◌∙◌, ◌==◌, true, Bool-cases, inl, inr, ltb, lt→ltb,
  if◌then◌else◌, List, [], ◌∷◌, ◌++◌, All, none, some, length, Bytes, append_assoc, append-nil,
  subst, arith,
}
use network_lirbary.Memory.Buffer.{Buffer, readable_bytes}
use network_lirbary.Memory.Buffer.Contents.{IsValid, contents, Queued, readable_bytes-eq}
use network_lirbary.Protocol.Http2.{
  State, Frame, FrameParser, Parsed, read_frame, parse, write_header,
}
use network_lirbary.Protocol.Http2.RoundTrip.{Fits, ready, parse-write_header}
use network_lirbary.Protocol.Http2.Session.{Session, handle_frame, frames_loop}

abbrev pub wire : List Frame → Bytes
wire [] = []
wire (f ∷ fs) = write_header f.header ++ (f.payload ++ wire fs)

-- A frame that a peer can send.
abbrev pub IsFrame : Frame → Type 0
IsFrame f = Fits f.header × (f.header.length ≡ length f.payload)

-- What the callback is told about a frame: DATA frames of a stream, and nothing else.
abbrev pub told : Frame → List (ℕ × Bytes)
told f =
    if ltb 0 f.header.stream_id
    then (if f.header.frame_type == 0 then (f.header.stream_id, f.payload) ∷ [] else [])
    else []

abbrev pub told_all : List Frame → List (ℕ × Bytes)
told_all [] = []
told_all (f ∷ fs) = told f ++ told_all fs

-- The part of a session that a frame leaves alone, and what it adds to the calls.
record Handled (s s' : Session) (f : Frame) : Type 0 where
  input_same : s'.input ≡ s.input
  parser_same : s'.parser ≡ s.parser
  callback_same : s'.has_on_stream_data ≡ s.has_on_stream_data
  calls_grow : s.has_on_stream_data ≡ true → s'.stream_data_calls ≡ s.stream_data_calls ++ told f

handle_frame-Handled :
    (fresh : Buffer) (s : Session) (f : Frame) → Handled s (handle_frame fresh s f) f
unfolding handle_frame
handle_frame-Handled fresh s f = elim (Bool-cases (ltb 0 f.header.stream_id)) [
  | inr control ↦ rw control (record {
    input_same = refl;
    parser_same = refl;
    callback_same = refl;
    calls_grow = λ c. rw control (sym (append-nil s.stream_data_calls));
  })
  | inl stream ↦ elim (Bool-cases (f.header.frame_type == 0)) [
    | inr other ↦
        rw (stream, other)
          (record {
            input_same = refl;
            parser_same = refl;
            callback_same = refl;
            calls_grow = λ c. rw (stream, other) (sym (append-nil s.stream_data_calls));
          })
    | inl data_type ↦
        rw (stream, data_type)
          (record {
            input_same = refl;
            parser_same = refl;
            callback_same = refl;
            calls_grow = λ c. rw (c, stream, data_type) refl;
          })
  ]
]

loop-some :
    (fresh : Buffer) (fuel : ℕ) (s : Session) (f : Frame)
    → (parse s.parser s.input).0 ≡ some f
    → frames_loop fresh (suc fuel) s
      ≡ frames_loop fresh fuel (
          handle_frame fresh
            (record s { input = (parse s.parser s.input).2; parser = (parse s.parser s.input).1 })
            f)
unfolding frames_loop
loop-some fresh fuel s f e = rw (e, frames_loop)

loop-none :
    (fresh : Buffer) (fuel : ℕ) (s : Session)
    → parse s.parser s.input ≡ (none, s.parser, s.input)
    → frames_loop fresh (suc fuel) s ≡ some s
unfolding frames_loop
loop-none fresh fuel s e =
    rw (ap (λ (r : Parsed). r.0) e, frames_loop)
      (ap (λ (r : Parsed). some (record s { input = r.2; parser = r.1 })) e)

incomplete :
    (p : FrameParser) (b : Buffer)
    → p.state ≡ State.reading_header
    → IsValid b
    → length (contents b) < 9
    → parse p b ≡ (none, p, b)
unfolding read_frame
incomplete p b r v h =
    ready p b r ∙ rw (lt→ltb (readable_bytes b) 9 (omega (arith, readable_bytes-eq b v)))

-- From a session that waits for a frame header and has a callback, on a valid input buffer that
-- holds whole frames and then fewer than nine bytes: the loop of `OnData` ends within one round
-- more than there are frames, the callback is told exactly the payloads of the DATA frames of
-- streams, in order, and exactly the rest is left in the buffer.
pub frames_loop-delivers :
    (fresh : Buffer) (s : Session) (fs : List Frame) (rest : Bytes) (fuel : ℕ)
    → s.parser.state ≡ State.reading_header
    → s.has_on_stream_data ≡ true
    → IsValid s.input
    → contents s.input ≡ wire fs ++ rest
    → All IsFrame fs
    → length rest < 9
    → length fs < fuel
    → (s' : Session) × (frames_loop fresh fuel s ≡ some s')
      × (s'.stream_data_calls ≡ s.stream_data_calls ++ told_all fs)
      × Queued s'.input rest
frames_loop-delivers fresh s fs rest zero r c v e ok short enough = absurd (omega arith)
frames_loop-delivers fresh s [] rest (suc fuel) r c v e ok short enough = (
  s,
  loop-none fresh fuel s (incomplete s.parser s.input r v (omega (arith, ap length e))),
  sym (append-nil s.stream_data_calls),
  record { valid = v; holds = e },
)
frames_loop-delivers fresh s (f ∷ fs) rest (suc fuel) r c v e ok short enough =
    let whole =
      parse-write_header s.parser s.input f.header f.payload (wire fs ++ rest) r ok.0.0 ok.0.1 v (
        e
        ∙ append_assoc (write_header f.header) (f.payload ++ wire fs) rest
        ∙ ap (◌++◌ (write_header f.header)) (append_assoc f.payload (wire fs) rest)) in
    let s1 : Session = record s {
      input = (parse s.parser s.input).2;
      parser = (parse s.parser s.input).1;
    } in
    let h = handle_frame-Handled fresh s1 f in
    let s2 = handle_frame fresh s1 f in
    let input : Queued s2.input (wire fs ++ rest) =
      subst (λ b. Queued b (wire fs ++ rest)) (sym h.input_same) whole.2 in
    let next =
      frames_loop-delivers fresh s2 fs rest fuel
        (ap (λ (p : FrameParser). p.state) h.parser_same ∙ whole.1) (h.callback_same ∙ c)
        input.valid input.holds ok.1 short (omega arith) in
    (
      next.0,
      loop-some fresh fuel s f whole.0 ∙ next.1,
      next.2
          ∙ ap (λ cs. cs ++ told_all fs) (h.calls_grow c)
          ∙ append_assoc s.stream_data_calls (told f) (told_all fs),
      next.3,
    )

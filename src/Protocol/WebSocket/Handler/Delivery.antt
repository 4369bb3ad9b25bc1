-- ===== src/Protocol/WebSocket/Handler/Delivery.antt =====
-- The text frames of an upgraded connection reach the application.
use network_lirbary.Common.{
  ℕ, zero, suc, ◌^◌, ◌<◌, ◌≤◌, ◌≡◌, refl, ap, ◌∙◌, true, false, if◌then◌else◌, ◌==◌, List, [], ◌∷◌,
  ◌++◌, some, length, drop, Bytes, All, arith, take_all, drop-append_exact, length-append,
}
use network_lirbary.Memory.Buffer.{Buffer, readable_bytes, peek, retrieve}
use network_lirbary.Memory.Buffer.Contents.{
  IsValid, contents, Queued, readable_bytes-eq, peek_lem, retrieve-Queued,
}
use network_lirbary.Protocol.Host.{
  Host, App, again, stop, run_turns, run_turns-again, run_turns-stop,
}
use network_lirbary.Protocol.WebSocket.Parser.{State, Frame, FrameParser, parse}
use network_lirbary.Protocol.WebSocket.RoundTrip.Headers.{text_frame}
use network_lirbary.Protocol.WebSocket.RoundTrip.Masked.{
  Key, IsKey, IsByte, masked_frame, masked_text, parse-masked_frame, length-masked_frame,
}
use network_lirbary.Protocol.WebSocket.Encoder.{write_frame, length-write_frame}
use network_lirbary.Protocol.WebSocket.RoundTrip.{parse-write_frame}
use network_lirbary.Protocol.WebSocket.Handler.{
  Serving, handle, data_frame, frame_turn, parsed, turn, upgrade, search, on_message,
}

-- A text frame as it can arrive: bare, as the server writes it, or masked, as a client sends it.
pub data Sent : Type 0 where
  bare : Bytes → Sent
  masked : Key → Bytes → Sent

abbrev pub text_of : Sent → Bytes
text_of (bare m) = m
text_of (masked k m) = m

abbrev pub encode : Sent → Bytes
encode (bare m) = write_frame m
encode (masked k m) = masked_frame k m

-- The payload is shorter than 65536 bytes; where it is masked, it and the key consist of bytes.
abbrev pub CanArrive : Sent → Type 0
CanArrive (bare m) = length m < 65536
CanArrive (masked k m) = (length m < 65536) × IsKey k × All IsByte m

abbrev frame_of : Sent → Frame
frame_of (bare m) = text_frame m
frame_of (masked k m) = masked_text m

length-encode : (x : Sent) → 2 ≤ length (encode x)
length-encode (bare m) = length-write_frame m
length-encode (masked k m) = length-masked_frame k m

parse-encode :
    (p : FrameParser) (x : Sent) (rest : Bytes)
    → p.state ≡ State.header
    → CanArrive x
    → length rest < 2 ^ 60
    → ((parse p (encode x ++ rest)).0 ≡ some (frame_of x, length (encode x)))
      × ((parse p (encode x ++ rest)).1.state ≡ State.header)
parse-encode p (bare m) rest ready ok small = parse-write_frame p m rest ready ok (omega arith)
parse-encode p (masked k m) rest ready ok small =
    parse-masked_frame p k m rest ready ok.1 ok.2 ok.0 small

module _ (h : Host) (accept_of : Bytes → Bytes) where
  open h use {World, check_rate_limit, stream_handler}

  -- The rate limiter lets a message through, and the application handles it.
  abbrev pub process : App World → Bytes → App World
  process a m =
      handle h accept_of stream_handler (record a { world = (check_rate_limit a.world).1 }) m

  abbrev pub process_all : App World → List Sent → App World
  process_all a [] = a
  process_all a (x ∷ xs) = process_all (process a (text_of x)) xs

  abbrev pub wire : List Sent → Bytes
  wire [] = []
  wire (x ∷ xs) = encode x ++ wire xs

  -- A text frame is handed over, masked or not.
  frame_turn-sent :
      (s : Serving World) (x : Sent)
      → ((w : World) → (check_rate_limit w).0 ≡ true)
      → frame_turn h accept_of s (frame_of x) ≡ again (record s { app = process s.app (text_of x) })
  unfolding frame_turn data_frame
  frame_turn-sent s (bare m) lenient = rw (lenient s.app.world) refl
  frame_turn-sent s (masked k m) lenient = rw (lenient s.app.world) refl

  -- The rate limiter refuses nothing.
  abbrev pub Lenient : Type 0
  Lenient = (w : World) → (check_rate_limit w).0 ≡ true

  one_frame :
      (s : Serving World) (x : Sent) (rest : Bytes)
      → Lenient
      → IsValid s.input
      → contents s.input ≡ encode x ++ rest
      → s.parser.state ≡ State.header
      → CanArrive x
      → length rest < 2 ^ 60
      → (p : FrameParser) × (turn h accept_of s
          ≡ again (record s {
            input = retrieve s.input (length (encode x));
            parser = p;
            app = process s.app (text_of x);
          }))
        × (p.state ≡ State.header)
  unfolding turn parsed
  one_frame s x rest lenient v e ready ok room =
      let all : peek s.input (readable_bytes s.input) ≡ encode x ++ rest =
        peek_lem s.input (readable_bytes s.input) v (omega (arith, readable_bytes-eq s.input v))
        ∙ take_all _ (contents s.input) (omega (arith, readable_bytes-eq s.input v))
        ∙ e in
      let there : (readable_bytes s.input == 0) ≡ false = ground (
        arith,
        readable_bytes-eq s.input v,
        ap length e,
        length-append (encode x) rest,
        length-encode x,
      ) in
      let (answer, again_ready) = parse-encode s.parser x rest ready ok room in
      let input : Bytes = peek s.input (readable_bytes s.input) in
      let read = ap (λ bs. (parse s.parser bs).0) all ∙ answer in
      let ends = ap (λ bs. (parse s.parser bs).1.state) all ∙ again_ready in
      let q = (parse s.parser input).1 in
      (
        q,
        rw (there, read, parsed)
            (frame_turn-sent (record s { input = retrieve s.input (length (encode x)); parser = q })
              x lenient),
        ends,
      )

  no_frame :
      (s : Serving World) → IsValid s.input → contents s.input ≡ [] → turn h accept_of s ≡ stop s
  unfolding turn
  no_frame s v e =
      let none_there : (readable_bytes s.input == 0) ≡ true =
        ground (arith, readable_bytes-eq s.input v, ap length e) in
      rw none_there refl

  frames_in_order :
      (fuel : ℕ) (s : Serving World) (ms : List Sent)
      → Lenient
      → IsValid s.input
      → contents s.input ≡ wire ms
      → s.parser.state ≡ State.header
      → All CanArrive ms
      → length (wire ms) < 2 ^ 60
      → length ms < fuel
      → (b : Buffer) × (p : FrameParser) × (run_turns (turn h accept_of) fuel s
          ≡ some (stop (record s { input = b; parser = p; app = process_all s.app ms })))
        × Queued b []
        × (p.state ≡ State.header)
  unfolding turn
  frames_in_order zero s ms lenient v e ready small room enough = absurd (omega arith)
  frames_in_order (suc fuel) s [] lenient v e ready small room enough = (
    s.input,
    s.parser,
    run_turns-stop (turn h accept_of) fuel s s (no_frame s v e),
    record { valid = v; holds = e },
    ready,
  )
  frames_in_order (suc fuel) s (m ∷ ms) lenient v e ready small room enough =
      let (p, went, ready') =
        one_frame s m (wire ms) lenient v e ready small.0
          (omega (arith, length-append (encode m) (wire ms))) in
      let b = retrieve s.input (length (encode m)) in
      let q = retrieve-Queued s.input (length (encode m)) v in
      let s' : Serving World = record s {
        input = b;
        parser = p;
        app = process s.app (text_of m);
      } in
      let (b', p', rest, done, ready_end) =
        frames_in_order fuel s' ms lenient q.valid
          (q.holds
            ∙ ap (drop (length (encode m))) e
            ∙ drop-append_exact (length (encode m)) (encode m) (wire ms) refl)
          ready' small.1 (omega (arith, length-append (encode m) (wire ms))) (omega arith) in
      (b', p', run_turns-again (turn h accept_of) fuel s s' went ∙ rest, done, ready_end)

  -- An upgraded connection whose buffer holds text frames, each masked with a key of four bytes, as
  -- a client sends them, or bare, as the server writes them, with a payload of fewer than 65536
  -- bytes, and a rate limiter that refuses nothing: `OnMessage` returns, the application is given
  -- exactly the payloads, unmasked and in order, and nothing is left in the buffer. The frames are
  -- shorter than 2^60 in all; `fuel` exceeds their number.
  pub on_message_delivers_frames :
      (fuel : ℕ) (s : Serving World) (ms : List Sent)
      → s.is_upgraded ≡ true
      → Lenient
      → IsValid s.input
      → contents s.input ≡ wire ms
      → s.parser.state ≡ State.header
      → All CanArrive ms
      → length (wire ms) < 2 ^ 60
      → length ms < fuel
      → (b : Buffer) × (p : FrameParser) × (on_message h accept_of fuel s
          ≡ some (stop (record s { input = b; parser = p; app = process_all s.app ms })))
        × Queued b []
        × (p.state ≡ State.header)
  unfolding on_message
  on_message_delivers_frames fuel s ms upgraded lenient v e ready small room enough =
      let (b, p, went, rest, ends) =
        frames_in_order fuel s ms lenient v e ready small room enough in
      (
        b,
        p,
        ap
              (λ u.
                if u
                then run_turns (turn h accept_of) fuel s
                else some (upgrade accept_of s (search (drop s.input.reader_index s.input.store))))
              upgraded
            ∙ went,
        rest,
        ends,
      )

-- ===== src/Protocol/Grpc/Handler/Delivery.antt =====
-- The messages of a gRPC connection reach the application.
use network_lirbary.Common.{
  ℕ, ◌+◌, ◌^◌, ◌<◌, ◌≡◌, refl, sym, ap, ◌∙◌, true, false, lt→ltb, List, [], ◌∷◌, ◌++◌, some, length,
  All, Bytes, arith, append-nil,
}
use network_lirbary.Memory.Buffer.{Buffer, append}
use network_lirbary.Memory.Buffer.Contents.{IsValid, contents, Queued, append-Queued}
use network_lirbary.Protocol.Host.{Host, Handled}
use network_lirbary.Protocol.Grpc.{encode, length-encode}
use network_lirbary.Protocol.Grpc.RoundTrip.{decode-encode}
use network_lirbary.Protocol.Http2.{State, Frame}
use network_lirbary.Protocol.Http2.Session.{Session, client_preface}
use network_lirbary.Protocol.Http2.Session.Delivery.{wire, IsFrame, told_all}
use network_lirbary.Protocol.Http2.Session.Preface.{on_data-delivers}
use network_lirbary.Protocol.Grpc.Handler.{
  Serving, StreamCall, process, process_decoded, stream_data_with, on_stream_data, on_all_data,
  on_message,
}

-- A message on a stream, in a DATA frame of its own.
abbrev pub frame_of : ℕ × Bytes → Frame
frame_of (id, m) = record {
  header = record { length = 5 + length m; frame_type = 0; flags = 0; stream_id = id };
  payload = encode m false;
}

abbrev pub frames_of : List (ℕ × Bytes) → List Frame
frames_of [] = []
frames_of (m ∷ ms) = frame_of m ∷ frames_of ms

-- A stream number is positive and below 2^31; a message fits a frame.
abbrev pub IsMessage : ℕ × Bytes → Type 0
IsMessage (id, m) = (0 < id) × (id < 2 ^ 31) × (5 + length m < 2 ^ 24)

abbrev sent : List (ℕ × Bytes) → List (ℕ × Bytes)
sent [] = []
sent ((id, m) ∷ ms) = (id, encode m false) ∷ sent ms

frames-IsFrame : (ms : List (ℕ × Bytes)) → All IsMessage ms → All IsFrame (frames_of ms)
frames-IsFrame [] p = tt
frames-IsFrame ((id, m) ∷ ms) p = (
  (record { length_fits = p.0.2; stream_fits = p.0.1 }, sym (length-encode m false)),
  frames-IsFrame ms p.1,
)

told-sent : (ms : List (ℕ × Bytes)) → All IsMessage ms → told_all (frames_of ms) ≡ sent ms
told-sent [] p = refl
told-sent ((id, m) ∷ ms) p =
    rw (lt→ltb 0 id p.0.0) (ap (◌∷◌ (id, encode m false)) (told-sent ms p.1))

-- A new buffer with room for any frame.
pub record IsFresh (b : Buffer) : Type 0 where
  pub empty : Queued b []
  pub low : b.writer_index < 2 ^ 62

module _ (h : Host) (registry : List (Bytes × (h.World → h.World × List StreamCall)))
    (handler : h.World → h.Envelope → h.Envelope → Handled h.World h.Envelope) where
  open h use {World, stream_handler}

  -- The application is given the messages, one after the other.
  abbrev pub process_all : Serving World → List (ℕ × Bytes) → Serving World
  process_all s [] = s
  process_all s ((id, m) ∷ ms) = process_all (process h registry handler id s m) ms

  one_message :
      (fresh : Buffer) (s : Serving World) (id : ℕ) (m : Bytes)
      → stream_handler ≡ some handler
      → IsFresh fresh
      → IsMessage (id, m)
      → on_stream_data h registry fresh s (id, encode m false) ≡ process h registry handler id s m
  unfolding on_stream_data stream_data_with process_decoded
  one_message fresh s id m e f p =
      let q =
        append-Queued fresh (encode m false) f.empty.valid
          (omega (arith, length-encode m false, f.low)) in
      let holds : contents (append fresh (encode m false)) ≡ encode m false ++ [] =
        q.holds
        ∙ ap (λ bs. bs ++ encode m false) f.empty.holds
        ∙ sym (append-nil (encode m false)) in
      let d =
        (decode-encode (append fresh (encode m false)) m false [] q.valid holds (omega arith)).0 in
      ap (λ o. stream_data_with h registry o fresh s (id, encode m false)) e
      ∙ ap (process_decoded h registry handler id s) d

  messages_in_order :
      (fresh : Buffer) (s : Serving World) (ms : List (ℕ × Bytes))
      → stream_handler ≡ some handler
      → IsFresh fresh
      → All IsMessage ms
      → on_all_data h registry fresh s (sent ms) ≡ process_all s ms
  messages_in_order fresh s [] e f p = refl
  messages_in_order fresh s ((id, m) ∷ ms) e f p =
      ap (λ t. on_all_data h registry fresh t (sent ms)) (one_message fresh s id m e f p.0)
      ∙ messages_in_order fresh (process h registry handler id s m) ms e f p.1

  -- A new gRPC connection whose buffer holds the preface, DATA frames that each carry one encoded
  -- message, and fewer than nine bytes more: `OnMessage` returns, the application's handler is
  -- given exactly these messages, on their streams and in order, and what follows is left in the
  -- buffer. Stream numbers are positive and below 2^31, a frame's payload is shorter than 2^24;
  -- `fuel` exceeds the number of frames, and `fresh` is an empty buffer.
  pub on_message_delivers_grpc :
      (fresh : Buffer) (fuel : ℕ) (s : Serving World) (ms : List (ℕ × Bytes)) (rest : Bytes)
      → stream_handler ≡ some handler
      → IsFresh fresh
      → s.session.preface_received ≡ false
      → s.session.parser.state ≡ State.reading_header
      → s.session.has_on_stream_data ≡ true
      → IsValid s.session.input
      → contents s.session.input ≡ client_preface ++ (wire (frames_of ms) ++ rest)
      → All IsMessage ms
      → length rest < 9
      → length (frames_of ms) < fuel
      → (after : Session) × (on_message h registry fresh fuel s
          ≡ some (process_all (record s { session = after }) ms))
        × Queued after.input rest
  unfolding on_message
  on_message_delivers_grpc fresh fuel s ms rest e f new reading told_so v holds p short enough =
      let (after, went, calls, q) =
        on_data-delivers fresh (record s.session { stream_data_calls = [] }) (frames_of ms) rest
          fuel new reading told_so v holds (frames-IsFrame ms p) short enough in
      let quiet : Session = record after { stream_data_calls = [] } in
      (
        quiet,
        rw (went, on_message, calls, told-sent ms p)
            (ap some (messages_in_order fresh (record s { session = quiet }) ms e f p)),
        q,
      )

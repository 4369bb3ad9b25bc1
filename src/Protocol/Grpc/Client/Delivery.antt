-- ===== src/Protocol/Grpc/Client/Delivery.antt =====
-- What the server's frames come to in the client.
use network_lirbary.Common.{
  ℕ, zero, suc, ◌+◌, ◌^◌, ◌<◌, ◌≡◌, refl, sym, ap, ◌∙◌, false, if◌then◌else◌, ltb, leb, le→leb,
  lt→ltb, le→ltb, List, [], ◌∷◌, ◌++◌, All, Option, some, length, take, drop, Bytes, arith,
  append-nil, append_assoc, length-append, take-append_exact, drop-append_exact,
}
use network_lirbary.Memory.Buffer.Contents.{
  IsValid, contents, Queued, append-Queued, readable_bytes-eq, peek_lem, peek_at_lem,
  retrieve-Queued,
}
use network_lirbary.Memory.Buffer.{Buffer, readable_bytes, peek, retrieve, append}
use network_lirbary.Protocol.Client.{deliver}
use network_lirbary.Protocol.Grpc.Client.{
  settings, message, react, frame_turn, turn, on_data_received, behind_header,
}
use network_lirbary.Protocol.Grpc.Handler.Delivery.{IsFresh}
use network_lirbary.Protocol.Grpc.RoundTrip.{decode-encode}
use network_lirbary.Protocol.Grpc.{encode, decode, length-encode}
use network_lirbary.Protocol.Host.{
  Host, App, send, calling, Handling, Turn, again, stop, run_turns-again, run_turns-stop,
}
use network_lirbary.Protocol.Http2.RoundTrip.{read_header-write_header}
use network_lirbary.Protocol.Http2.Session.Delivery.{wire, IsFrame}
use network_lirbary.Protocol.Http2.{Frame, read_header, write_header}

-- What a server sends: its settings, the acknowledgement of ours, and messages.
pub data Reply : Type 0 where
  settings_sent : Reply
  settings_acknowledged : Reply
  message_sent : ℕ → Bytes → Reply

abbrev control : ℕ → Frame
control flags = record {
  header = record { length = 0; frame_type = 4; flags = flags; stream_id = 0 };
  payload = [];
}

abbrev pub frame_of_reply : Reply → Frame
frame_of_reply settings_sent = control 0
frame_of_reply settings_acknowledged = control 1
frame_of_reply (message_sent id m) = record {
  header = record { length = 5 + length m; frame_type = 0; flags = 0; stream_id = id };
  payload = encode m false;
}

abbrev pub frames_of_replies : List Reply → List Frame
frames_of_replies [] = []
frames_of_replies (r ∷ rs) = frame_of_reply r ∷ frames_of_replies rs

-- A stream number is below 2^31, and a message fits a frame.
abbrev pub CanBeSent : Reply → Type 0
CanBeSent settings_sent = Unit
CanBeSent settings_acknowledged = Unit
CanBeSent (message_sent id m) = (id < 2 ^ 31) × (5 + length m < 2 ^ 24)

reply-IsFrame : (r : Reply) → CanBeSent r → IsFrame (frame_of_reply r)
reply-IsFrame settings_sent p =
    (record { length_fits = omega arith; stream_fits = omega arith }, refl)
reply-IsFrame settings_acknowledged p =
    (record { length_fits = omega arith; stream_fits = omega arith }, refl)
reply-IsFrame (message_sent id m) p =
    (record { length_fits = p.1; stream_fits = p.0 }, sym (length-encode m false))

module _ (h : Host) (handler : Option (h.World → h.Envelope → h.World)) (fresh : Buffer)
    (f : IsFresh fresh) where
  open h use {World, parse}

  -- Settings are acknowledged, a message is handed to the message handler.
  abbrev pub answered : App World → Reply → App World
  answered a settings_sent = calling a (send (settings 1))
  answered a settings_acknowledged = a
  answered a (message_sent id m) = deliver h handler handler a (parse m)

  abbrev pub answered_all : App World → List Reply → App World
  answered_all a [] = a
  answered_all a (r ∷ rs) = answered_all (answered a r) rs

  decode-message :
      (m : Bytes)
      → 5 + length m < 2 ^ 24
      → (decode (append fresh (encode m false))).0 ≡ some (m, false)
  decode-message m p =
      let q =
        append-Queued fresh (encode m false) f.empty.valid
          (omega (arith, length-encode m false, f.low)) in
      (decode-encode (append fresh (encode m false)) m false [] q.valid
        (q.holds
          ∙ ap (λ bs. bs ++ encode m false) f.empty.holds
          ∙ sym (append-nil (encode m false)))
        (omega arith)).0

  react-answered :
      (a : App World) (r : Reply)
      → CanBeSent r
      → react h handler fresh a (frame_of_reply r).header (frame_of_reply r).payload ≡ answered a r
  unfolding react message
  react-answered a settings_sent p = refl
  react-answered a settings_acknowledged p = refl
  react-answered a (message_sent id m) p = ap (message h handler fresh a) (decode-message m p.1)

  -- A whole frame at the front.
  module _ (s : Handling World) (g : Frame) (more : Bytes) (v : IsValid s.input) (ok : IsFrame g)
      (e : contents s.input ≡ write_header g.header ++ (g.payload ++ more)) where
    there : readable_bytes s.input ≡ 9 + (length g.payload + length more)
    unfolding write_header
    there = readable_bytes-eq s.input v ∙ ap length e ∙ omega (arith, length-append g.payload more)

    header_there : read_header (peek s.input 9) ≡ g.header
    header_there =
        ap read_header (
          peek_lem s.input 9 v (omega (arith, readable_bytes-eq s.input v, there))
          ∙ ap (take 9) e
          ∙ take-append_exact 9 (write_header g.header) (g.payload ++ more)
              (unfold write_header in refl))
        ∙ read_header-write_header g.header ok.0

    payload_there : behind_header h handler fresh s (length g.payload) ≡ g.payload
    payload_there =
        peek_at_lem s.input 9 (length g.payload) v
          (omega (arith, readable_bytes-eq s.input v, there))
        ∙ ap (λ bs. take (length g.payload) (drop 9 bs)) e
        ∙ ap (take (length g.payload)) (
            drop-append_exact 9 (write_header g.header) (g.payload ++ more)
              (unfold write_header in refl))
        ∙ take-append_exact (length g.payload) g.payload more refl

    left : Queued (retrieve s.input (9 + length g.payload)) more
    left =
        let q = retrieve-Queued s.input (9 + length g.payload) v in
        record {
          valid = q.valid;
          holds =
              q.holds
              ∙ ap (drop (9 + length g.payload))
                  (e ∙ sym (append_assoc (write_header g.header) g.payload more))
              ∙ drop-append_exact (9 + length g.payload) (write_header g.header ++ g.payload) more
                  (unfold write_header in omega arith);
        }

    -- The round for a payload of `n` bytes.
    abbrev round : ℕ → Turn (Handling World)
    round n =
        if leb (9 + n) (readable_bytes s.input)
        then again (record {
          input = retrieve s.input (9 + n);
          app = react h handler fresh s.app g.header (behind_header h handler fresh s n);
        })
        else stop s

    abbrev next : Bytes → Handling World
    next payload = record {
      input = retrieve s.input (9 + length g.payload);
      app = react h handler fresh s.app g.header payload;
    }

    frame_turn-frame : frame_turn h handler fresh s g.header ≡ again (next g.payload)
    unfolding frame_turn
    frame_turn-frame =
        ap round ok.1
        ∙ ap
            (λ b.
              if b
              then again (next (behind_header h handler fresh s (length g.payload)))
              else stop s)
            (le→leb (9 + length g.payload) (readable_bytes s.input) (omega (arith, there)))
        ∙ ap (λ payload. again (next payload)) payload_there

    turn-frame :
        turn h handler fresh s
        ≡ again (record {
          input = retrieve s.input (9 + length g.payload);
          app = react h handler fresh s.app g.header g.payload;
        })
    unfolding turn
    turn-frame =
        ap (λ b. if b then stop s else frame_turn h handler fresh s (read_header (peek s.input 9)))
          (ap (λ k. ltb k 9) there ∙ le→ltb _ 9 (omega arith))
        ∙ ap (frame_turn h handler fresh s) header_there
        ∙ frame_turn-frame

  rest_waits :
      (s : Handling World)
      → IsValid s.input
      → length (contents s.input) < 9
      → turn h handler fresh s ≡ stop s
  unfolding turn
  rest_waits s v short =
      ap (λ b. if b then stop s else frame_turn h handler fresh s (read_header (peek s.input 9)))
        (ap (λ k. ltb k 9) (readable_bytes-eq s.input v) ∙ lt→ltb _ 9 short)

  -- The input buffer holds frames as a server sends them, settings, acknowledgements of settings,
  -- and DATA frames that each carry one encoded message, and then fewer than nine bytes:
  -- `OnDataReceived` ends, has acknowledged each settings frame and handed each message to the
  -- handler, in order, and leaves exactly the rest in the buffer. Stream numbers are below 2^31,
  -- a frame's payload is shorter than 2^24; `fuel` exceeds the number of frames, and `fresh` is
  -- an empty buffer.
  pub on_data_received-answers :
      (rs : List Reply) (s : Handling World) (rest : Bytes) (fuel : ℕ)
      → IsValid s.input
      → contents s.input ≡ wire (frames_of_replies rs) ++ rest
      → All CanBeSent rs
      → length rest < 9
      → length rs < fuel
      → (b : Buffer) × (on_data_received h handler fresh fuel s
          ≡ some (stop (record { input = b; app = answered_all s.app rs })))
        × Queued b rest
  unfolding on_data_received
  on_data_received-answers rs s rest zero v e p short k = absurd (omega arith)
  on_data_received-answers [] s rest (suc fuel) v e p short k = (
    s.input,
    run_turns-stop (turn h handler fresh) fuel s s (rest_waits s v (rw e short)),
    record { valid = v; holds = e },
  )
  on_data_received-answers (r ∷ rs) s rest (suc fuel) v e p short k =
      let g : Frame = frame_of_reply r in
      let ok = reply-IsFrame r p.0 in
      let more : Bytes = wire (frames_of_replies rs) ++ rest in
      let e' : contents s.input ≡ write_header g.header ++ (g.payload ++ more) =
        e
        ∙ append_assoc (write_header g.header) (g.payload ++ wire (frames_of_replies rs)) rest
        ∙ ap (◌++◌ (write_header g.header))
            (append_assoc g.payload (wire (frames_of_replies rs)) rest) in
      let q = left s g more v ok e' in
      let s' : Handling World = record {
        input = retrieve s.input (9 + length g.payload);
        app = answered s.app r;
      } in
      let went : turn h handler fresh s ≡ again s' =
        turn-frame s g more v ok e'
        ∙ ap (λ a. again (record { input = retrieve s.input (9 + length g.payload); app = a }))
            (react-answered s.app r p.0) in
      let (b, done, waits) =
        on_data_received-answers rs s' rest fuel q.valid q.holds p.1 short (omega arith) in
      (b, run_turns-again (turn h handler fresh) fuel s s' went ∙ done, waits)

-- ===== src/Protocol/WebSocket/Handler.antt =====
-- `WebSocketHandler::OnMessage` of lib_network/src/protocols/websocket/websocket_handler.cc, its
-- stream context, and the opening handshake of handshake.cc. SHA-1 and base64 are OpenSSL's, one
-- parameter `accept_of`. `is_upgraded_` and `parser_` are members of the handler, which serves
-- many connections. A read of `strstr` behind the end of the buffer's vector is undefined, which
-- is `escape` here, as an exception is.
pub mod Delivery
mod Tests
use network_lirbary.Common.{
  ℕ, zero, suc, ◌+◌, ◌==◌, Bool, true, false, ◌&&◌, ◌||◌, ltb, if◌then◌else◌, List, [], ◌∷◌, ◌++◌,
  Option, none, some, length, take, drop, Bytes,
}
use network_lirbary.Common.Dict.{lookup, insert, bytes_eq}
use network_lirbary.Memory.Buffer.{Buffer, readable_bytes, peek, retrieve}
use network_lirbary.Protocol.Host.{
  Host, ContextCall, write_envelope, write_bytes, close, Handled, App, calling, send, force_close,
  Turn, again, stop, escape, run_turns,
}
use network_lirbary.Protocol.Http.Text.{find_colon, pop_carriage_return}
use network_lirbary.Protocol.WebSocket.Parser.{Frame, FrameParser, parse}
use network_lirbary.Protocol.WebSocket.Encoder.{write_frame}

-- `kGuid`
abbrev pub guid : Bytes
guid =
    b'2' ∷ b'5' ∷ b'8' ∷ b'E' ∷ b'A' ∷ b'F' ∷ b'A' ∷ b'5' ∷ b'-' ∷ b'E' ∷ b'9' ∷ b'1' ∷ b'4' ∷ b'-'
    ∷ b'4' ∷ b'7' ∷ b'D' ∷ b'A' ∷ b'-' ∷ b'9' ∷ b'5' ∷ b'C' ∷ b'A' ∷ b'-' ∷ b'C' ∷ b'5' ∷ b'A'
    ∷ b'B' ∷ b'0' ∷ b'D' ∷ b'C' ∷ b'8' ∷ b'5' ∷ b'B' ∷ b'1' ∷ b'1' ∷ []

-- "Sec-WebSocket-Key"
abbrev pub key_header : Bytes
key_header =
    b'S' ∷ b'e' ∷ b'c' ∷ b'-' ∷ b'W' ∷ b'e' ∷ b'b' ∷ b'S' ∷ b'o' ∷ b'c' ∷ b'k' ∷ b'e' ∷ b't' ∷ b'-'
    ∷ b'K' ∷ b'e' ∷ b'y' ∷ []

-- The response before its key.
abbrev pub switching : Bytes
switching =
    b'H' ∷ b'T' ∷ b'T' ∷ b'P' ∷ b'/' ∷ b'1' ∷ b'.' ∷ b'1' ∷ 32 ∷ b'1' ∷ b'0' ∷ b'1' ∷ 32 ∷ b'S'
    ∷ b'w' ∷ b'i' ∷ b't' ∷ b'c' ∷ b'h' ∷ b'i' ∷ b'n' ∷ b'g' ∷ 32 ∷ b'P' ∷ b'r' ∷ b'o' ∷ b't' ∷ b'o'
    ∷ b'c' ∷ b'o' ∷ b'l' ∷ b's' ∷ 13 ∷ 10 ∷ b'U' ∷ b'p' ∷ b'g' ∷ b'r' ∷ b'a' ∷ b'd' ∷ b'e' ∷ b':'
    ∷ 32 ∷ b'w' ∷ b'e' ∷ b'b' ∷ b's' ∷ b'o' ∷ b'c' ∷ b'k' ∷ b'e' ∷ b't' ∷ 13 ∷ 10 ∷ b'C' ∷ b'o'
    ∷ b'n' ∷ b'n' ∷ b'e' ∷ b'c' ∷ b't' ∷ b'i' ∷ b'o' ∷ b'n' ∷ b':' ∷ 32 ∷ b'U' ∷ b'p' ∷ b'g' ∷ b'r'
    ∷ b'a' ∷ b'd' ∷ b'e' ∷ 13 ∷ 10 ∷ b'S' ∷ b'e' ∷ b'c' ∷ b'-' ∷ b'W' ∷ b'e' ∷ b'b' ∷ b'S' ∷ b'o'
    ∷ b'c' ∷ b'k' ∷ b'e' ∷ b't' ∷ b'-' ∷ b'A' ∷ b'c' ∷ b'c' ∷ b'e' ∷ b'p' ∷ b't' ∷ b':' ∷ 32 ∷ []

-- The refusal.
abbrev pub bad_request : Bytes
bad_request =
    b'H' ∷ b'T' ∷ b'T' ∷ b'P' ∷ b'/' ∷ b'1' ∷ b'.' ∷ b'1' ∷ 32 ∷ b'4' ∷ b'0' ∷ b'0' ∷ 32 ∷ b'B'
    ∷ b'a' ∷ b'd' ∷ 32 ∷ b'R' ∷ b'e' ∷ b'q' ∷ b'u' ∷ b'e' ∷ b's' ∷ b't' ∷ 13 ∷ 10 ∷ 13 ∷ 10 ∷ []

-- "websocket"
abbrev pub websocket : Bytes
websocket = b'w' ∷ b'e' ∷ b'b' ∷ b's' ∷ b'o' ∷ b'c' ∷ b'k' ∷ b'e' ∷ b't' ∷ []

-- `strstr(text, "\r\n\r\n")`: the offset of the first match before the terminating zero, none, or
-- a read behind the end.
pub data Search : Type 0 where
  found : ℕ → Search
  absent overrun : Search

pub one_further : Search → Search
one_further (found k) = found (suc k)
one_further absent = absent
one_further overrun = overrun

abbrev blank_line : Bytes → Bool
blank_line bs = bytes_eq (take 4 bs) (13 ∷ 10 ∷ 13 ∷ 10 ∷ [])

pub search : Bytes → Search
search [] = overrun
search (c ∷ cs) =
    let rest = one_further (search cs) in
    if c == 0 then absent else if blank_line (c ∷ cs) then found 0 else rest

-- The lines that `std::getline` reads.
pub lines : Bytes → List Bytes
lines [] = []
lines (c ∷ cs) = if c == 10 then [] ∷ lines cs else add_front c (lines cs)
  where
    add_front : ℕ → List Bytes → List Bytes
    add_front x [] = (x ∷ []) ∷ []
    add_front x (l ∷ ls) = (x ∷ l) ∷ ls

-- A header line; `substr(colon + 2)` throws where the colon is the last character.
pub header_at : Bytes → Option ℕ → List (Bytes × Bytes) → Option (List (Bytes × Bytes))
header_at line none headers = some headers
header_at line (some colon) headers =
    if ltb (length line) (colon + 2)
    then none
    else some (insert (take colon line) (pop_carriage_return (drop (colon + 2) line)) headers)

-- The headers up to a line that is a carriage return.
pub read_headers : List Bytes → List (Bytes × Bytes) → Option (List (Bytes × Bytes))
read_headers [] headers = some headers
read_headers (l ∷ ls) headers =
    let rest = elim (header_at l (find_colon l) headers) as (λ o. Option (List (Bytes × Bytes))) [
      | none ↦ none
      | some headers' ↦ read_headers ls headers'
    ] in
    if bytes_eq l (13 ∷ []) then some headers else rest

-- `Handshake::Process`.
pub process_handshake : (Bytes → Bytes) → List (Bytes × Bytes) → Option Bytes
process_handshake accept_of headers = elim (lookup key_header headers) [
  | none ↦ none
  | some key ↦ some (accept_of (key ++ guid))
]

-- `Handshake::GenerateResponse`.
pub generate_response : Bytes → Bytes
generate_response accept_key = switching ++ (accept_key ++ 13 ∷ 10 ∷ 13 ∷ 10 ∷ [])

-- The input buffer of a connection, the handler's members, and the application.
pub record Serving (World : Type 0) : Type 0 where
  pub input : Buffer
  pub is_upgraded : Bool
  pub parser : FrameParser
  pub app : App World

pub on_connection : {World : Type 0} → Serving World → Serving World
on_connection s = record s { is_upgraded = false }

-- The answer to an opening handshake.
pub answered : {World : Type 0} → Serving World → Option Bytes → Serving World
answered s none = record s { app = calling (calling s.app (send bad_request)) force_close }
answered s (some accept_key) = record s {
  app = calling s.app (send (generate_response accept_key));
  is_upgraded = true;
}

pub upgrade_with :
    {World : Type 0}
    → (Bytes → Bytes)
    → Serving World
    → Option (List (Bytes × Bytes))
    → Turn (Serving World)
upgrade_with accept_of s none = escape s
upgrade_with accept_of s (some headers) = stop (answered s (process_handshake accept_of headers))

-- `OnMessage` before the upgrade.
pub upgrade : {World : Type 0} → (Bytes → Bytes) → Serving World → Search → Turn (Serving World)
upgrade accept_of s (found k) =
    upgrade_with accept_of (record s { input = retrieve s.input (k + 4) })
      (read_headers (lines (peek s.input k)) [])
upgrade accept_of s absent = stop s
upgrade accept_of s overrun = escape s

module _ (h : Host) (accept_of : Bytes → Bytes) where
  open h use {
    World, Envelope, empty, has_payload, payload_data, set_message_type, set_payload_data,
    check_rate_limit, stream_handler,
  }

  -- `WebSocketStreamContext`.
  pub perform : App World → ContextCall Envelope → App World
  perform a (write_envelope msg) =
      calling a (send (write_frame (if has_payload msg then payload_data msg else [])))
  perform a (write_bytes bytes) = calling a (send (write_frame bytes))
  perform a close = calling a force_close

  abbrev pub perform_all : App World → List (ContextCall Envelope) → App World
  perform_all a [] = a
  perform_all a (c ∷ cs) = perform_all (perform a c) cs

  -- The application's handler on the payload of a frame; its exceptions are swallowed.
  pub handle :
      Option (World → Envelope → Envelope → Handled World Envelope) → App World → Bytes → App World
  handle none a payload = a
  handle (some handler) a payload =
      let request = set_payload_data (set_message_type empty websocket) payload in
      let r = handler a.world request empty in
      let asked = perform_all (record a { world = r.world }) r.requests in
      if r.throws
      then asked
      else if has_payload r.response
      then perform asked (write_envelope r.response)
      else asked

  -- A text or binary frame.
  pub data_frame : Serving World → Bytes → Turn (Serving World)
  data_frame s payload =
      let (allowed, world) = check_rate_limit s.app.world in
      let a = record s.app { world = world } in
      if allowed
      then again (record s { app = handle stream_handler a payload })
      else stop (record s { app = calling a force_close })

  pub frame_turn : Serving World → Frame → Turn (Serving World)
  frame_turn s f =
      if (f.opcode == 1) || (f.opcode == 2)
      then data_frame s f.payload
      else if f.opcode == 8
      then stop (record s { app = calling s.app force_close })
      else again s

  -- What `Parse` answers.
  pub parsed : Serving World → Option (Frame × ℕ) → Turn (Serving World)
  parsed s none = stop s
  parsed s (some (f, consumed)) = frame_turn (record s { input = retrieve s.input consumed }) f

  -- A round of `while (buf.ReadableBytes() > 0)`.
  pub turn : Serving World → Turn (Serving World)
  turn s =
      let r = parse s.parser (peek s.input (readable_bytes s.input)) in
      if readable_bytes s.input == 0 then stop s else parsed (record s { parser = r.1 }) r.0

  -- `OnMessage`, on fuel for its loop.
  pub on_message : ℕ → Serving World → Option (Turn (Serving World))
  on_message fuel s =
      let frames = run_turns turn fuel s in
      if s.is_upgraded
      then frames
      else some (upgrade accept_of s (search (drop s.input.reader_index s.input.store)))

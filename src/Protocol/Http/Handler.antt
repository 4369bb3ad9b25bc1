-- ===== src/Protocol/Http/Handler.antt =====
-- What `HttpHandler` answers: `OnMessage` and `SendResponse` of
-- lib_network/src/protocols/http/http_handler.cc, and its `HttpStreamContext`. The connection's
-- context is the `HttpContext` that `OnConnection` gives it. Logging is left out.
use network_lirbary.Common.{
  ℕ, zero, suc, ◌+◌, ◌/◌, ◌%◌, Bool, true, false, ◌==◌, ltb, if◌then◌else◌, List, [], ◌∷◌, ◌++◌,
  Option, none, some, length, Bytes,
}
use network_lirbary.Memory.Buffer.{Buffer}
use network_lirbary.Protocol.Host.{
  Host, ContextCall, write_envelope, write_bytes, close, Handled, send, shutdown, App, calling,
}
use network_lirbary.Protocol.Client.{decimal}
use network_lirbary.Protocol.Http.{
  HttpContext, Parsed, incomplete, complete, throws, parse_request, buffer_source, new_context,
}

-- HTTP/1.1 200 OK; Connection: keep-alive; Transfer-Encoding: chunked; ;
abbrev pub stream_head : Bytes
stream_head =
    b'H' ∷ b'T' ∷ b'T' ∷ b'P' ∷ b'/' ∷ b'1' ∷ b'.' ∷ b'1' ∷ 32 ∷ b'2' ∷ b'0' ∷ b'0' ∷ 32 ∷ b'O'
    ∷ b'K' ∷ 13 ∷ 10 ∷ b'C' ∷ b'o' ∷ b'n' ∷ b'n' ∷ b'e' ∷ b'c' ∷ b't' ∷ b'i' ∷ b'o' ∷ b'n' ∷ b':'
    ∷ 32 ∷ b'k' ∷ b'e' ∷ b'e' ∷ b'p' ∷ b'-' ∷ b'a' ∷ b'l' ∷ b'i' ∷ b'v' ∷ b'e' ∷ 13 ∷ 10 ∷ b'T'
    ∷ b'r' ∷ b'a' ∷ b'n' ∷ b's' ∷ b'f' ∷ b'e' ∷ b'r' ∷ b'-' ∷ b'E' ∷ b'n' ∷ b'c' ∷ b'o' ∷ b'd'
    ∷ b'i' ∷ b'n' ∷ b'g' ∷ b':' ∷ 32 ∷ b'c' ∷ b'h' ∷ b'u' ∷ b'n' ∷ b'k' ∷ b'e' ∷ b'd' ∷ 13 ∷ 10 ∷ 13
    ∷ 10 ∷ []

-- 0; ;
abbrev pub last_chunk : Bytes
last_chunk = b'0' ∷ 13 ∷ 10 ∷ 13 ∷ 10 ∷ []

abbrev pub crlf : Bytes
crlf = 13 ∷ 10 ∷ []

-- HTTP/1.1
abbrev response_start : Bytes
response_start = b'H' ∷ b'T' ∷ b'T' ∷ b'P' ∷ b'/' ∷ b'1' ∷ b'.' ∷ b'1' ∷ 32 ∷ []

-- OK; Content-Type: text/plain; Content-Length:
abbrev response_type : Bytes
response_type =
    32 ∷ b'O' ∷ b'K' ∷ 13 ∷ 10 ∷ b'C' ∷ b'o' ∷ b'n' ∷ b't' ∷ b'e' ∷ b'n' ∷ b't' ∷ b'-' ∷ b'T' ∷ b'y'
    ∷ b'p' ∷ b'e' ∷ b':' ∷ 32 ∷ b't' ∷ b'e' ∷ b'x' ∷ b't' ∷ b'/' ∷ b'p' ∷ b'l' ∷ b'a' ∷ b'i' ∷ b'n'
    ∷ 13 ∷ 10 ∷ b'C' ∷ b'o' ∷ b'n' ∷ b't' ∷ b'e' ∷ b'n' ∷ b't' ∷ b'-' ∷ b'L' ∷ b'e' ∷ b'n' ∷ b'g'
    ∷ b't' ∷ b'h' ∷ b':' ∷ 32 ∷ []

-- ; Connection: close; ;
abbrev response_end : Bytes
response_end =
    13 ∷ 10 ∷ b'C' ∷ b'o' ∷ b'n' ∷ b'n' ∷ b'e' ∷ b'c' ∷ b't' ∷ b'i' ∷ b'o' ∷ b'n' ∷ b':' ∷ 32 ∷ b'c'
    ∷ b'l' ∷ b'o' ∷ b's' ∷ b'e' ∷ 13 ∷ 10 ∷ 13 ∷ 10 ∷ []

-- Too Many Requests
abbrev too_many : Bytes
too_many =
    b'T' ∷ b'o' ∷ b'o' ∷ 32 ∷ b'M' ∷ b'a' ∷ b'n' ∷ b'y' ∷ 32 ∷ b'R' ∷ b'e' ∷ b'q' ∷ b'u' ∷ b'e'
    ∷ b's' ∷ b't' ∷ b's' ∷ []

-- Internal Server Error
abbrev internal_error : Bytes
internal_error =
    b'I' ∷ b'n' ∷ b't' ∷ b'e' ∷ b'r' ∷ b'n' ∷ b'a' ∷ b'l' ∷ 32 ∷ b'S' ∷ b'e' ∷ b'r' ∷ b'v' ∷ b'e'
    ∷ b'r' ∷ 32 ∷ b'E' ∷ b'r' ∷ b'r' ∷ b'o' ∷ b'r' ∷ []

-- The greeting and the label of the path.
abbrev hello : Bytes
hello =
    b'H' ∷ b'e' ∷ b'l' ∷ b'l' ∷ b'o' ∷ 32 ∷ b'f' ∷ b'r' ∷ b'o' ∷ b'm' ∷ 32 ∷ b'N' ∷ b'e' ∷ b't'
    ∷ b'w' ∷ b'o' ∷ b'r' ∷ b'k' ∷ b'L' ∷ b'i' ∷ b'b' ∷ 32 ∷ b'H' ∷ b'T' ∷ b'T' ∷ b'P' ∷ 32 ∷ b'S'
    ∷ b'e' ∷ b'r' ∷ b'v' ∷ b'e' ∷ b'r' ∷ b'!' ∷ 10 ∷ b'P' ∷ b'a' ∷ b't' ∷ b'h' ∷ b':' ∷ 32 ∷ []

-- A hexadecimal digit in lower case.
abbrev pub hex_digit : ℕ → ℕ
hex_digit d = if ltb d 10 then 48 + d else 87 + d

-- `ss << std::hex << n` for a `size_t`, which has at most sixteen digits.
pub hex : ℕ → ℕ → Bytes
hex zero n = []
hex (suc fuel) n =
    let front = hex fuel (n / 16) in
    if ltb n 16 then hex_digit n ∷ [] else front ++ hex_digit (n % 16) ∷ []

pub chunk : Bytes → Bytes
chunk body = hex 16 (length body) ++ (crlf ++ (body ++ crlf))

-- What `SendResponse` sends.
pub response : ℕ → Bytes → Bytes
response status msg =
    response_start
    ++ (decimal 20 status ++ (response_type ++ (decimal 20 (length msg) ++ (response_end ++ msg))))

-- `HttpStreamContext`: the calls made, and `headers_sent_`.
pub record Stream (World : Type 0) : Type 0 where
  pub app : App World
  pub headers_sent : Bool

-- The handler's side of a connection: its input buffer, its context and the application.
pub record Serving (World : Type 0) : Type 0 where
  pub input : Buffer
  pub context : HttpContext
  pub app : App World

-- `OnConnection`.
pub on_connection : {World : Type 0} → Buffer → App World → Serving World
on_connection b a = record { input = b; context = new_context; app = a }

module _ (h : Host) where
  open h use {
    World, Envelope, empty, has_payload, payload_data, set_message_type, set_protocol_version,
    set_metadata, set_payload_data, check_rate_limit, stream_handler,
  }

  pub send_response : App World → ℕ → Bytes → App World
  send_response a status msg = calling a (send (response status msg))

  -- The head of the response, once.
  pub write_head : Stream World → Stream World
  write_head s =
      if s.headers_sent
      then s
      else record { app = calling s.app (send stream_head); headers_sent = true }

  pub write_chunk : Stream World → Bytes → Stream World
  write_chunk s body =
      if length body == 0 then s else record s { app = calling s.app (send (chunk body)) }

  -- `Write` of a string.
  pub write : Stream World → Bytes → Stream World
  write s data' = write_chunk (write_head s) data'

  -- `Write` of an envelope.
  pub write_message : Stream World → Envelope → Stream World
  write_message s msg = write s (if has_payload msg then payload_data msg else [])

  pub close_stream : Stream World → Stream World
  close_stream s =
      let a = if s.headers_sent then calling s.app (send last_chunk) else s.app in
      record s { app = calling a shutdown }

  pub perform : Stream World → ContextCall Envelope → Stream World
  perform s (write_envelope msg) = write_message s msg
  perform s (write_bytes bytes) = write s bytes
  perform s close = close_stream s

  pub perform_all : Stream World → List (ContextCall Envelope) → Stream World
  perform_all s [] = s
  perform_all s (c ∷ cs) = perform_all (perform s c) cs

  abbrev pub add_metadata : Envelope → List (Bytes × Bytes) → Envelope
  add_metadata e [] = e
  add_metadata e ((k, v) ∷ kvs) = add_metadata (set_metadata e k v) kvs

  -- The envelope of a request.
  pub request_envelope : HttpContext → Envelope
  request_envelope c =
      let named =
        set_protocol_version (set_message_type empty (c.method ++ (32 ∷ c.path))) c.version in
      let e = add_metadata named c.headers in
      if length c.body == 0 then e else set_payload_data e c.body

  -- After the application's handler has run.
  pub answered : Stream World → Handled World Envelope → App World
  answered s r =
      if r.throws
      then send_response s.app 500 internal_error
      else if has_payload r.response
      then (close_stream (write_message s r.response)).app
      else s.app

  pub answer_with :
      Option (World → Envelope → Envelope → Handled World Envelope)
      → App World
      → HttpContext
      → App World
  answer_with none a c = send_response a 200 (hello ++ (c.path ++ 10 ∷ []))
  answer_with (some handler) a c =
      let r = handler a.world (request_envelope c) empty in
      let s : Stream World = record { app = record a { world = r.world }; headers_sent = false } in
      answered (perform_all s r.requests) r

  -- A whole request.
  pub answer : App World → HttpContext → App World
  answer a c =
      let (allowed, world) = check_rate_limit a.world in
      let a' = record a { world = world } in
      if allowed
      then answer_with stream_handler a' c
      else calling (send_response a' 429 too_many) shutdown

  -- After the parser: the flag says that an exception escapes.
  unfoldable pub after_parse : App World → Parsed Buffer → Serving World × Bool
  after_parse a (incomplete c b) = (record { input = b; context = c; app = a }, false)
  after_parse a (complete c b) = (record { input = b; context = c; app = answer a c }, false)
  after_parse a (throws c b) = (record { input = b; context = c; app = a }, true)

  -- `OnMessage`, on fuel for the parser's loop.
  unfoldable pub on_message : ℕ → Serving World → Option (Serving World × Bool)
  on_message fuel s = elim (parse_request buffer_source fuel s.context s.input) [
    | none ↦ none
    | some p ↦ some (after_parse s.app p)
  ]

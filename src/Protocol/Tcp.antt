-- ===== src/Protocol/Tcp.antt =====
-- `TcpHandler` of lib_network/src/protocols/tcp/tcp_handler.cc: messages with a four-byte length
-- prefix, or raw bytes handed on as they come. Logging is left out.
pub mod Delivery
use network_lirbary.Common.{
  ℕ, ◌*◌, ◌+◌, ◌++◌, Bool, true, false, ◌||◌, not, ltb, leb, ◌==◌, if◌then◌else◌, List, [], ◌∷◌,
  length, Option, none, some, Bytes, add32,
}
use network_lirbary.Memory.Buffer.{Buffer, readable_bytes, peek, retrieve}
use network_lirbary.Protocol.Host.{
  Host, ContextCall, write_envelope, write_bytes, close, Handled, ConnectionCall, send, force_close,
  App, calling, Handling, Turn, again, stop, escape, run_turns,
}
use network_lirbary.Protocol.Framing.{frame, peek_length}

-- 100 MB, the largest message accepted.
abbrev pub max_message : ℕ
max_message = 100 * 1024 * 1024

-- "_resp"
abbrev resp_suffix : Bytes
resp_suffix = b'_' ∷ b'r' ∷ b'e' ∷ b's' ∷ b'p' ∷ []

module _ (h : Host) where
  open h use {
    World, Envelope, empty, parse, serialize, has_header, has_payload, message_id, set_message_id,
    set_correlation_id, copy_payload, check_rate_limit, stream_handler, raw_handler,
  }

  -- A frame, if the payload is not empty.
  unfoldable pub send_frame : App World → Bytes → App World
  send_frame a payload = if length payload == 0 then a else calling a (send (frame payload))

  -- `TcpStreamContext`.
  unfoldable pub perform : App World → ContextCall Envelope → App World
  perform a (write_envelope msg) = send_frame a (serialize msg)
  perform a (write_bytes bytes) = calling a (send bytes)
  perform a close = calling a force_close

  unfoldable pub perform_all : App World → List (ContextCall Envelope) → App World
  perform_all a [] = a
  perform_all a (c ∷ cs) = perform_all (perform a c) cs

  -- The response before the handler sees it.
  pub skeleton : Envelope → Envelope
  skeleton req =
      if has_header req
      then set_message_id (set_correlation_id empty (message_id req))
          (message_id req ++ resp_suffix)
      else empty

  -- The response, if it has content.
  unfoldable pub reply : App World → Envelope → App World
  reply a resp =
      if has_header resp || (has_payload resp || ltb 0 (length (serialize resp)))
      then send_frame a (serialize resp)
      else a

  unfoldable pub handle :
      Option (World → Envelope → Envelope → Handled World Envelope)
      → App World
      → Envelope
      → App World × Bool
  handle none a req =
      let resp = skeleton req in
      (reply a (if has_payload req then copy_payload resp req else resp), false)
  handle (some handler) a req =
      let r = handler a.world req (skeleton req) in
      let a' = perform_all (record a { world = r.world }) r.requests in
      if r.throws then (a', true) else (reply a' r.response, false)

  unfoldable pub parsed : App World → Option Envelope → App World × Bool
  parsed a none = (a, false)
  parsed a (some req) = handle stream_handler a req

  -- A whole message: dropped if the rate limiter says so. The flag says that an exception escapes.
  unfoldable pub process : App World → Bytes → App World × Bool
  process a message =
      let (allowed, world) = check_rate_limit a.world in
      let a' = record a { world = world } in
      if allowed then parsed a' (parse message) else (a', false)

  -- After a message: round again, or out by the exception.
  pub leave : Buffer → App World × Bool → Turn (Handling World)
  leave b (a, thrown) =
      let s : Handling World = record { input = b; app = a } in if thrown then escape s else again s

  -- A message whose length is accepted, once it is there.
  pub receive : Handling World → ℕ → Turn (Handling World)
  receive s len =
      let b = retrieve s.input 4 in
      let after =
        if (check_rate_limit s.app.world).0
        then retrieve b len
        else retrieve s.input (add32 4 len) in
      if leb (add32 4 len) (readable_bytes s.input)
      then leave after (process s.app (peek b len))
      else stop s

  pub turn : Handling World → Turn (Handling World)
  turn s =
      let len = peek_length s.input in
      if ltb (readable_bytes s.input) 4
      then stop s
      else if ltb max_message len
      then stop (record s { app = calling s.app force_close })
      else receive s len

  -- Raw mode: all that is readable at once, or dropped.
  pub raw_message :
      (World → Bytes → World × List (ContextCall Envelope)) → Handling World → Handling World
  raw_message handler s =
      let len = readable_bytes s.input in
      let (allowed, world) = check_rate_limit s.app.world in
      let (world', requests) = handler world (peek s.input len) in
      if len == 0
      then s
      else if allowed
      then record {
        input = retrieve s.input len;
        app = perform_all (record s.app { world = world' }) requests;
      }
      else record { input = retrieve s.input len; app = record s.app { world = world } }

  pub on_message_with :
      Option (World → Bytes → World × List (ContextCall Envelope))
      → ℕ
      → Handling World
      → Option (Turn (Handling World))
  on_message_with none fuel s = run_turns turn fuel s
  on_message_with (some handler) fuel s = some (stop (raw_message handler s))

  -- `OnMessage`, on fuel for its loop.
  pub on_message : ℕ → Handling World → Option (Turn (Handling World))
  on_message fuel s = on_message_with raw_handler fuel s

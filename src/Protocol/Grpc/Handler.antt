-- ===== src/Protocol/Grpc/Handler.antt =====
-- `GrpcHandler` of lib_network/src/protocols/grpc/grpc_handler.cc with its stream context, the
-- stream of grpc_stream_impl.h, and the dispatch of service_registry.cc. The session's callback
-- for stream data only sends, so it is run on what the session reports, in order, when `OnData`
-- is done. `fresh` is a new buffer.
pub mod Delivery
use network_lirbary.Common.{
  ℕ, ◌==◌, Bool, true, false, ◌||◌, not, if◌then◌else◌, List, [], ◌∷◌, ◌++◌, Option, none, some,
  length, Bytes,
}
use network_lirbary.Common.Dict.{lookup}
use network_lirbary.Memory.Buffer.{Buffer, append}
use network_lirbary.Protocol.Host.{Host, ContextCall, write_envelope, write_bytes, close, Handled}
use network_lirbary.Protocol.Client.{decimal}
use network_lirbary.Protocol.Grpc.{encode, decode}
use network_lirbary.Protocol.Http2.Session.{Session, on_data, send_headers, send_stream_data}

-- "/test.Service/Method"
abbrev pub test_path : Bytes
test_path =
    b'/' ∷ b't' ∷ b'e' ∷ b's' ∷ b't' ∷ b'.' ∷ b'S' ∷ b'e' ∷ b'r' ∷ b'v' ∷ b'i' ∷ b'c' ∷ b'e' ∷ b'/'
    ∷ b'M' ∷ b'e' ∷ b't' ∷ b'h' ∷ b'o' ∷ b'd' ∷ []

-- ":status"
abbrev pub status_key : Bytes
status_key = b':' ∷ b's' ∷ b't' ∷ b'a' ∷ b't' ∷ b'u' ∷ b's' ∷ []

-- "content-type"
abbrev pub content_type : Bytes
content_type =
    b'c' ∷ b'o' ∷ b'n' ∷ b't' ∷ b'e' ∷ b'n' ∷ b't' ∷ b'-' ∷ b't' ∷ b'y' ∷ b'p' ∷ b'e' ∷ []

-- "application/grpc"
abbrev pub application_grpc : Bytes
application_grpc =
    b'a' ∷ b'p' ∷ b'p' ∷ b'l' ∷ b'i' ∷ b'c' ∷ b'a' ∷ b't' ∷ b'i' ∷ b'o' ∷ b'n' ∷ b'/' ∷ b'g' ∷ b'r'
    ∷ b'p' ∷ b'c' ∷ []

-- "grpc-status"
abbrev pub grpc_status : Bytes
grpc_status = b'g' ∷ b'r' ∷ b'p' ∷ b'c' ∷ b'-' ∷ b's' ∷ b't' ∷ b'a' ∷ b't' ∷ b'u' ∷ b's' ∷ []

-- "grpc-message"
abbrev pub grpc_message : Bytes
grpc_message =
    b'g' ∷ b'r' ∷ b'p' ∷ b'c' ∷ b'-' ∷ b'm' ∷ b'e' ∷ b's' ∷ b's' ∷ b'a' ∷ b'g' ∷ b'e' ∷ []

-- "Error"
abbrev pub error_text : Bytes
error_text = b'E' ∷ b'r' ∷ b'r' ∷ b'o' ∷ b'r' ∷ []

-- `kNotFound`
abbrev pub not_found : ℕ
not_found = 4

-- What a registered method asks of its stream. A message callback is never called: the stream has
-- had its data before the method is called, and the next data comes with a new stream.
pub data StreamCall : Type 0 where
  writes : Bytes → StreamCall
  writes_headers finishes : ℕ → StreamCall
  sets_on_message : StreamCall

pub record Serving (World : Type 0) : Type 0 where
  pub session : Session
  pub world : World

-- `GrpcStreamImpl`, on the stream `id`.
pub stream_call : ℕ → Session → StreamCall → Session
stream_call id s (writes bytes) = send_stream_data s id (encode bytes false) false
stream_call id s (writes_headers status) =
    send_headers s id ((status_key, decimal 20 status) ∷ (content_type, application_grpc) ∷ [])
      false
stream_call id s (finishes status) =
    let message = if status == 0 then [] else (grpc_message, error_text) ∷ [] in
    send_headers s id (message ++ (grpc_status, decimal 20 status) ∷ []) true
stream_call id s sets_on_message = s

abbrev pub stream_calls : ℕ → Session → List StreamCall → Session
stream_calls id s [] = s
stream_calls id s (c ∷ cs) = stream_calls id (stream_call id s c) cs

module _ (h : Host) (registry : List (Bytes × (h.World → h.World × List StreamCall))) where
  open h use {
    World, Envelope, empty, parse, has_header, has_payload, message_type, payload_data,
    set_message_type, set_payload_data, stream_handler,
  }

  -- `ServiceRegistry::Dispatch`, with the method that was found.
  pub dispatch_to : Option (World → World × List StreamCall) → Serving World → ℕ → Serving World
  dispatch_to none s id = record s { session = stream_call id s.session (finishes not_found) }
  dispatch_to (some method) s id =
      let (w, calls) = method s.world in
      record { session = stream_calls id s.session calls; world = w }

  pub dispatch : Serving World → Bytes → ℕ → Serving World
  dispatch s path id = dispatch_to (lookup path registry) s id

  -- `GrpcStreamContext`, on the stream `id`.
  pub context_call : ℕ → Session → ContextCall Envelope → Session
  context_call id s (write_envelope msg) =
      if has_payload msg then send_stream_data s id (encode (payload_data msg) false) false else s
  context_call id s (write_bytes bytes) = send_stream_data s id (encode bytes false) false
  context_call id s close = send_stream_data s id [] true

  abbrev pub context_calls : ℕ → Session → List (ContextCall Envelope) → Session
  context_calls id s [] = s
  context_calls id s (c ∷ cs) = context_calls id (context_call id s c) cs

  -- The payload as a message of its own.
  pub wrapped : Bytes → Envelope
  wrapped payload = set_payload_data (set_message_type empty test_path) payload

  pub request_of : Bytes → Option Envelope → Envelope
  request_of payload none = wrapped payload
  request_of payload (some e) =
      if not (has_header e) || (length (message_type e) == 0) then wrapped payload else e

  -- A whole message.
  pub process :
      (World → Envelope → Envelope → Handled World Envelope)
      → ℕ
      → Serving World
      → Bytes
      → Serving World
  process handler id s payload =
      let r = handler s.world (request_of payload (parse payload)) empty in
      let asked = context_calls id s.session r.requests in
      let replied = context_calls id asked (write_envelope r.response ∷ close ∷ []) in
      record {
        session = if r.throws then asked else (if has_payload r.response then replied else asked);
        world = r.world;
      }

  pub process_decoded :
      (World → Envelope → Envelope → Handled World Envelope)
      → ℕ
      → Serving World
      → Option (Bytes × Bool)
      → Serving World
  process_decoded handler id s none = s
  process_decoded handler id s (some (payload, compressed)) = process handler id s payload

  -- The session's callback.
  pub stream_data_with :
      Option (World → Envelope → Envelope → Handled World Envelope)
      → Buffer
      → Serving World
      → ℕ × Bytes
      → Serving World
  stream_data_with none fresh s (id, bytes) = dispatch s test_path id
  stream_data_with (some handler) fresh s (id, bytes) =
      process_decoded handler id s (decode (append fresh bytes)).0

  pub on_stream_data : Buffer → Serving World → ℕ × Bytes → Serving World
  on_stream_data fresh s told = stream_data_with stream_handler fresh s told

  abbrev pub on_all_data : Buffer → Serving World → List (ℕ × Bytes) → Serving World
  on_all_data fresh s [] = s
  on_all_data fresh s (t ∷ ts) = on_all_data fresh (on_stream_data fresh s t) ts

  -- `OnMessage`, on fuel for the session's loop.
  pub on_message : Buffer → ℕ → Serving World → Option (Serving World)
  on_message fresh fuel s =
      let before : Session = record s.session { stream_data_calls = [] } in
      elim (on_data fresh fuel before) [
        | none ↦ none
        | some after ↦
            let quiet : Session = record after { stream_data_calls = [] } in
            some (on_all_data fresh (record s { session = quiet }) after.stream_data_calls)
      ]

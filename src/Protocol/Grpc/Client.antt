-- ===== src/Protocol/Grpc/Client.antt =====
-- `GrpcClientProtocol` of lib_network/include/network/core/client/protocols/grpc_protocol.h: an
-- HTTP/2 client with one stream, whose messages are serialized envelopes. `fresh` is a new
-- buffer.
pub mod Delivery
mod Tests
use network_lirbary.Common.Text.{codes}
use network_lirbary.Common.{
  ℕ, ◌+◌, ◌%◌, Bool, true, false, ◌==◌, ltb, leb, if◌then◌else◌, List, [], ◌∷◌, ◌++◌, Option, none,
  some, length, take, drop, Bytes,
}
use network_lirbary.Memory.Buffer.{Buffer, readable_bytes, peek, retrieve, append}
use network_lirbary.Protocol.Client.{deliver}
use network_lirbary.Protocol.Grpc.{encode, decode}
use network_lirbary.Protocol.Host.{Host, App, send, calling, Handling, Turn, again, stop, run_turns}
use network_lirbary.Protocol.Http2.Hpack as Hpack
use network_lirbary.Protocol.Http2.{FrameHeader, read_header, write_header}

abbrev preface : Bytes
preface = codes "PRI * HTTP/2.0\r\n\r\nSM\r\n\r\n"

-- A SETTINGS frame without settings.
abbrev pub settings : ℕ → Bytes
settings flags = 0 ∷ 0 ∷ 0 ∷ 4 ∷ flags ∷ 0 ∷ 0 ∷ 0 ∷ 0 ∷ []

abbrev frame_header : Bytes → ℕ → ℕ → Bytes
frame_header payload frame_type flags =
    write_header
      (record { length = length payload; frame_type = frame_type; flags = flags; stream_id = 1 })

module _ (h : Host) where
  open h use {World, Envelope, parse, serialize, has_header, message_type}

  pub on_connect : App World → App World
  on_connect a = calling (calling a (send preface)) (send (settings 0))

  pub path_of : Envelope → Bytes
  path_of e =
      if has_header e
      then (if length (message_type e) == 0 then codes "/test.Service/Method" else message_type e)
      else codes "/test.Service/Method"

  -- The map of headers, in the order of its keys.
  pub headers : Envelope → List (Bytes × Bytes)
  headers e =
      (codes ":method", codes "POST")
      ∷ (codes ":path", path_of e)
      ∷ (codes ":scheme", codes "http")
      ∷ (codes "content-type", codes "application/grpc")
      ∷ (codes "te", codes "trailers")
      ∷ []

  -- HEADERS with END_HEADERS, and DATA with END_STREAM, always on stream 1.
  pub send_grpc : App World → Envelope → App World
  send_grpc a e =
      let block = Hpack.encode (headers e) in
      let bytes = encode (serialize e) false in
      let a1 = calling (calling a (send (frame_header block 1 4))) (send block) in
      calling (calling a1 (send (frame_header bytes 0 1))) (send bytes)

module _ (h : Host) (handler : Option (h.World → h.Envelope → h.World)) (fresh : Buffer) where
  open h use {World, parse}

  -- A decoded message.
  pub message : App World → Option (Bytes × Bool) → App World
  message a none = a
  message a (some (payload, compressed)) = deliver h handler handler a (parse payload)

  -- What a whole frame comes to: SETTINGS are acknowledged, DATA holds a message.
  pub react : App World → FrameHeader → Bytes → App World
  react a f payload =
      if f.frame_type == 4
      then (if f.flags % 2 == 0 then calling a (send (settings 1)) else a)
      else if f.frame_type == 0
      then message a (decode (append fresh payload)).0
      else a

  abbrev behind_header : Handling World → ℕ → Bytes
  behind_header s n = take n (drop (s.input.reader_index + 9) s.input.store)

  pub frame_turn : Handling World → FrameHeader → Turn (Handling World)
  frame_turn s f =
      let b = retrieve s.input (9 + f.length) in
      let a = react s.app f (behind_header s f.length) in
      if leb (9 + f.length) (readable_bytes s.input)
      then again (record { input = b; app = a })
      else stop s

  pub turn : Handling World → Turn (Handling World)
  turn s =
      if ltb (readable_bytes s.input) 9 then stop s else frame_turn s (read_header (peek s.input 9))

  pub on_data_received : ℕ → Handling World → Option (Turn (Handling World))
  on_data_received fuel s = run_turns turn fuel s

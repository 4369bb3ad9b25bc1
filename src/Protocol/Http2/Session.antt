-- ===== src/Protocol/Http2/Session.antt =====
-- `Session` of lib_network/src/protocols/http2/session.cc, with its streams (stream.cc). The
-- callback for stream data is a list of what it was told; calls on the connection are recorded in
-- order.
pub mod Delivery
pub mod Preface
use network_lirbary.Common.{
  ℕ, zero, suc, ◌+◌, ◌%◌, ◌^◌, ◌==◌, Bool, true, false, not, ltb, leb, if◌then◌else◌, List, [], ◌∷◌,
  ◌++◌, Option, none, some, length, Bytes,
}
use network_lirbary.Common.Dict.{bytes_eq}
use network_lirbary.Memory.Buffer.{Buffer, readable_bytes, peek, retrieve, append}
use network_lirbary.Protocol.Host.{ConnectionCall, send, force_close}
use network_lirbary.Protocol.Http2.{FrameHeader, Frame, FrameParser, Parsed, parse, write_header}
use network_lirbary.Protocol.Http2.Hpack.{encode}

-- "PRI * HTTP/2.0\r\n\r\nSM\r\n\r\n"
abbrev pub client_preface : Bytes
client_preface =
    b'P' ∷ b'R' ∷ b'I' ∷ b' ' ∷ b'*' ∷ b' ' ∷ b'H' ∷ b'T' ∷ b'T' ∷ b'P' ∷ b'/' ∷ b'2' ∷ b'.' ∷ b'0'
    ∷ 13 ∷ 10 ∷ 13 ∷ 10 ∷ b'S' ∷ b'M' ∷ 13 ∷ 10 ∷ 13 ∷ 10 ∷ []

pub record Session : Type 0 where
  pub input : Buffer
  pub parser : FrameParser
  -- The data buffers of the streams, by number.
  pub streams : List (ℕ × Buffer)
  pub preface_received : Bool
  pub has_on_stream_data : Bool
  pub stream_data_calls : List (ℕ × Bytes)
  pub calls : List ConnectionCall

-- `GetStream`; `fresh` is the buffer of a new stream.
pub get_stream : Buffer → ℕ → List (ℕ × Buffer) → Buffer
get_stream fresh id [] = fresh
get_stream fresh id ((i, b) ∷ rest) =
    let further = get_stream fresh id rest in if i == id then b else further

-- The streams once the buffer of one is changed.
pub set_stream : ℕ → Buffer → List (ℕ × Buffer) → List (ℕ × Buffer)
set_stream id b [] = (id, b) ∷ []
set_stream id b ((i, c) ∷ rest) =
    let further = set_stream id b rest in if i == id then (id, b) ∷ rest else (i, c) ∷ further

-- `Stream::AppendData`, and the notification of the higher layer.
abbrev pub data_frame : Session → ℕ → Buffer → Bytes → Session
data_frame s id b payload = record s {
  streams = set_stream id (append b payload) s.streams;
  stream_data_calls =
      if s.has_on_stream_data
      then s.stream_data_calls ++ (id, payload) ∷ []
      else s.stream_data_calls;
}

pub handle_frame : Buffer → Session → Frame → Session
handle_frame fresh s f =
    let id = f.header.stream_id in
    let b = get_stream fresh id s.streams in
    if ltb 0 id
    then (if f.header.frame_type == 0
        then data_frame s id b f.payload
        else record s { streams = set_stream id b s.streams })
    else s

-- `while (parser_.Parse(buf, frame))`, on fuel.
pub frames_loop : Buffer → ℕ → Session → Option Session
frames_loop fresh zero s = none
frames_loop fresh (suc fuel) s =
    let (answer, p, b) = parse s.parser s.input in
    let s' : Session = record s { input = b; parser = p } in
    elim answer [ none ↦ some s' | some f ↦ frames_loop fresh fuel (handle_frame fresh s' f) ]

-- `OnData`.
pub on_data : Buffer → ℕ → Session → Option Session
on_data fresh fuel s =
    let open_loop = frames_loop fresh fuel s in
    let first_loop =
      frames_loop fresh fuel (record s { input = retrieve s.input 24; preface_received = true }) in
    if s.preface_received
    then open_loop
    else if leb 24 (readable_bytes s.input)
    then (if bytes_eq (peek s.input 24) client_preface
        then first_loop
        else some (record s { calls = s.calls ++ force_close ∷ [] }))
    else some s

-- `SendHeaders`.
pub send_headers : Session → ℕ → List (Bytes × Bytes) → Bool → Session
send_headers s stream_id headers end_stream =
    let block = encode headers in
    let size = length block % 2 ^ 32 in
    let header = write_header (record {
      length = size;
      frame_type = 1;
      flags = if end_stream then 5 else 4;
      stream_id = stream_id;
    }) in
    record s { calls = s.calls ++ send header ∷ (if ltb 0 size then send block ∷ [] else []) }

-- `SendStreamData`.
pub send_stream_data : Session → ℕ → Bytes → Bool → Session
send_stream_data s stream_id bytes end_stream =
    let header = write_header (record {
      length = length bytes % 2 ^ 32;
      frame_type = 0;
      flags = if end_stream then 1 else 0;
      stream_id = stream_id;
    }) in
    record s {
      calls = s.calls ++ send header ∷ (if length bytes == 0 then [] else send bytes ∷ []);
    }

-- ===== src/Protocol/Http2.antt =====
-- HTTP/2 framing: `FrameParser` of lib_network/src/protocols/http2/frame_parser.cc, and the
-- frames and streams of session.cc and stream.cc there. A frame type is its code: 0 is DATA, 1 is
-- HEADERS.
pub mod Hpack
pub mod Session
pub mod RoundTrip
pub mod Fragments
mod Tests
use network_lirbary.Common.{
  ℕ, ◌+◌, ◌*◌, ◌/◌, ◌%◌, ◌^◌, Bool, ltb, if◌then◌else◌, [], ◌∷◌, ◌++◌, Option, none, some, length,
  get_or, Bytes,
}
use network_lirbary.Memory.Buffer.{Buffer, readable_bytes, peek, retrieve}

pub data State : Type 0 where
  reading_header reading_payload : State

pub record FrameHeader : Type 0 where
  pub length : ℕ
  pub frame_type : ℕ
  pub flags : ℕ
  pub stream_id : ℕ

pub record Frame : Type 0 where
  pub header : FrameHeader
  pub payload : Bytes

pub record FrameParser : Type 0 where
  pub state : State
  pub current_header : FrameHeader

-- `current_header_` is uninitialised, and given as an argument.
pub new : FrameHeader → FrameParser
new h = record { state = State.reading_header; current_header = h }

-- The nine bytes of a header; the top bit of the stream's number is reserved.
abbrev pub read_header : Bytes → FrameHeader
read_header bs = record {
  length = get_or bs 0 0 * 2 ^ 16 + get_or bs 1 0 * 2 ^ 8 + get_or bs 2 0;
  frame_type = get_or bs 3 0;
  flags = get_or bs 4 0;
  stream_id =
      (get_or bs 5 0 * 2 ^ 24 + get_or bs 6 0 * 2 ^ 16 + get_or bs 7 0 * 2 ^ 8 + get_or bs 8 0)
      % 2 ^ 31;
}

-- What `Parse` returns, and the parser and the buffer after it.
abbrev pub Parsed : Type 0
Parsed = Option Frame × FrameParser × Buffer

pub read_payload : FrameParser → Buffer → Parsed
read_payload p b =
    let n = p.current_header.length in
    let frame : Frame = record { header = p.current_header; payload = peek b n } in
    if ltb (readable_bytes b) n then (none, p, b) else (
      some frame,
      record p { state = State.reading_header },
      if ltb 0 n then retrieve b n else b,
    )

pub read_frame : FrameParser → Buffer → Parsed
read_frame p b =
    let q : FrameParser = record {
      state = State.reading_payload;
      current_header = read_header (peek b 9);
    } in
    if ltb (readable_bytes b) 9 then (none, p, b) else read_payload q (retrieve b 9)

pub parse_in : State → FrameParser → Buffer → Parsed
parse_in State.reading_header p b = read_frame p b
parse_in State.reading_payload p b = read_payload p b

pub parse : FrameParser → Buffer → Parsed
parse p b = parse_in p.state p b

-- The nine bytes that `SendStreamData` and `SendHeaders` write.
unfoldable pub write_header : FrameHeader → Bytes
write_header h =
    (h.length / 2 ^ 16 % 256)
    ∷ (h.length / 2 ^ 8 % 256)
    ∷ (h.length % 256)
    ∷ h.frame_type
    ∷ h.flags
    ∷ (h.stream_id / 2 ^ 24 % 128)
    ∷ (h.stream_id / 2 ^ 16 % 256)
    ∷ (h.stream_id / 2 ^ 8 % 256)
    ∷ (h.stream_id % 256)
    ∷ []

-- ===== src/Protocol/Http2/Tests.antt =====
-- A DATA frame of stream 5 with two bytes.
use network_lirbary.Common.{◌≡◌, false, refl, true, [], ◌∷◌, ◌++◌, some, length, Bytes, arith}
use network_lirbary.Memory.Buffer.{Buffer}
use network_lirbary.Memory.Buffer.Contents.{Queued}
use network_lirbary.Protocol.Http2.{State, FrameHeader, Frame, FrameParser, write_header}
use network_lirbary.Protocol.Http2.RoundTrip.{Fits}
use network_lirbary.Protocol.Http2.Session.Preface.{on_data-delivers}
use network_lirbary.Protocol.Http2.Session.{client_preface, on_data, Session}
use network_lirbary.Protocol.Http2.Session.Delivery.{told_all}

abbrev header : FrameHeader
header = record { length = 2; frame_type = 0; flags = 1; stream_id = 5 }

abbrev hi_frame : Frame
hi_frame = record { header = header; payload = b'h' ∷ b'i' ∷ [] }

abbrev parser : FrameParser
parser = record {
  state = State.reading_header;
  current_header = record { length = 0; frame_type = 0; flags = 0; stream_id = 0 };
}

abbrev bytes : Bytes
bytes = 0 ∷ 0 ∷ 2 ∷ 0 ∷ 1 ∷ 0 ∷ 0 ∷ 0 ∷ 5 ∷ b'h' ∷ b'i' ∷ 0 ∷ []

abbrev buffer_of : Bytes → Buffer
buffer_of bs = record { store = bs; reader_index = 0; writer_index = length bs }

header-Fits : Fits header
header-Fits = record { length_fits = omega arith; stream_fits = omega arith }

abbrev session : Session
session = record {
  input = buffer_of bytes;
  parser = parser;
  streams = [];
  preface_received = true;
  has_on_stream_data = true;
  stream_data_calls = [];
  calls = [];
}

-- A session before its preface.
abbrev new_session : Bytes → Session
new_session bs = record session { input = buffer_of bs; preface_received = false }

on_data-delivers_example :
    (s : Session) × (on_data (buffer_of []) 2 (new_session (client_preface ++ bytes)) ≡ some s)
    × (s.stream_data_calls ≡ [] ++ told_all (hi_frame ∷ []))
    × Queued s.input (0 ∷ [])
unfolding write_header
on_data-delivers_example =
    on_data-delivers (buffer_of []) (new_session (client_preface ++ bytes)) (hi_frame ∷ []) (0 ∷ [])
      2 refl refl refl (record { ordered = omega arith; inside = omega arith; small = omega arith })
      refl ((header-Fits, refl), tt) (omega arith) (omega arith)

-- ===== src/Protocol/Grpc/Tests.antt =====
-- A new connection with one message on stream 5.
use network_lirbary.Common.{
  ℕ, ◌≡◌, refl, true, false, [], ◌∷◌, ◌++◌, List, some, length, Bytes, arith,
}
use network_lirbary.Memory.Buffer.{Buffer}
use network_lirbary.Memory.Buffer.Contents.{Queued}
use network_lirbary.Protocol.Grpc.{encode}
use network_lirbary.Protocol.Tests.{host, answer}
use network_lirbary.Protocol.Http2.{State, write_header}
use network_lirbary.Protocol.Http2.Session.{Session, client_preface}
use network_lirbary.Protocol.Grpc.Handler.{Serving, on_message}
use network_lirbary.Protocol.Grpc.Handler.Delivery.{IsFresh, process_all, on_message_delivers_grpc}

abbrev buffer_of : Bytes → Buffer
buffer_of bs = record { store = bs; reader_index = 0; writer_index = length bs }

abbrev hi : List (ℕ × Bytes)
hi = (5, b'h' ∷ b'i' ∷ []) ∷ []

-- The frame as it stands on the wire, and a byte more.
abbrev on_wire : Bytes
on_wire = 0 ∷ 0 ∷ 7 ∷ 0 ∷ 0 ∷ 0 ∷ 0 ∷ 0 ∷ 5 ∷ 0 ∷ 0 ∷ 0 ∷ 0 ∷ 2 ∷ b'h' ∷ b'i' ∷ 0 ∷ []

abbrev new_session : Session
new_session = record {
  input = buffer_of (client_preface ++ on_wire);
  parser = record {
    state = State.reading_header;
    current_header = record { length = 0; frame_type = 0; flags = 0; stream_id = 0 };
  };
  streams = [];
  preface_received = false;
  has_on_stream_data = true;
  stream_data_calls = [];
  calls = [];
}

abbrev serving : Serving ℕ
serving = record { session = new_session; world = 0 }

empty-IsFresh : IsFresh (buffer_of [])
empty-IsFresh = record {
  empty = record {
    valid = record { ordered = omega arith; inside = omega arith; small = omega arith };
    holds = refl;
  };
  low = omega arith;
}

on_message_delivers_grpc_example :
    (after : Session) × (on_message host [] (buffer_of []) 2 serving
      ≡ some (process_all host [] answer (record serving { session = after }) hi))
    × Queued after.input (0 ∷ [])
unfolding encode write_header
on_message_delivers_grpc_example =
    on_message_delivers_grpc host [] answer (buffer_of []) 2 serving hi (0 ∷ []) refl empty-IsFresh
      refl refl refl (record { ordered = omega arith; inside = omega arith; small = omega arith })
      refl ((omega arith, omega arith, omega arith), tt) (omega arith) (omega arith)

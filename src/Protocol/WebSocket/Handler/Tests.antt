-- ===== src/Protocol/WebSocket/Handler/Tests.antt =====
-- An upgraded connection with a masked and a bare text frame.
use network_lirbary.Common.{ℕ, ◌≡◌, refl, true, false, List, [], ◌∷◌, some, arith}
use network_lirbary.Memory.Buffer.{Buffer}
use network_lirbary.Memory.Buffer.Contents.{Queued}
use network_lirbary.Protocol.Host.{stop}
use network_lirbary.Protocol.Tests.{host, buffer_of}
use network_lirbary.Protocol.WebSocket.Parser.{State, FrameParser}
use network_lirbary.Protocol.WebSocket.Encoder.{write_frame, frame_header}
use network_lirbary.Protocol.WebSocket.Handler.{Serving, on_message}
use network_lirbary.Protocol.WebSocket.RoundTrip.Masked.{masked_frame}
use network_lirbary.Protocol.WebSocket.Handler.Delivery.{
  Sent, bare, masked, process_all, on_message_delivers_frames,
}

-- "hi" under the key 1 2 3 4, and an empty bare frame.
abbrev messages : List Sent
messages = masked (record { k0 = 1; k1 = 2; k2 = 3; k3 = 4 }) (b'h' ∷ b'i' ∷ []) ∷ bare [] ∷ []

abbrev serving : Serving ℕ
serving = record {
  input = buffer_of (129 ∷ 130 ∷ 1 ∷ 2 ∷ 3 ∷ 4 ∷ b'i' ∷ b'k' ∷ 129 ∷ 0 ∷ []);
  is_upgraded = true;
  parser = record {
    state = State.header;
    current_frame = record { fin = false; opcode = 0; masked = false; payload = [] };
    payload_length = 0;
    mask_key = [];
    bytes_needed = 2;
  };
  app = record { world = 0; calls = [] };
}

on_message_delivers_frames_example :
    (b : Buffer) × (p : FrameParser) × (on_message host (λ key. key) 3 serving
      ≡ some (
          stop (record serving {
            input = b;
            parser = p;
            app = process_all host (λ key. key) serving.app messages;
          })))
    × Queued b []
    × (p.state ≡ State.header)
unfolding write_frame frame_header masked_frame
on_message_delivers_frames_example =
    on_message_delivers_frames host (λ key. key) 3 serving messages refl (λ w. refl)
      (record { ordered = omega arith; inside = omega arith; small = omega arith }) refl refl
      ((omega arith, omega arith, (omega arith, (omega arith, tt))), (omega arith, tt))
      (omega arith) (omega arith)

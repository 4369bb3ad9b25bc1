-- ===== src/Protocol/WebSocket/Encoder.antt =====
-- The frames that are written: by the server's `WebSocketStreamContext` in websocket_handler.cc,
-- and by the client in lib_network/include/network/core/client/protocols/websocket_protocol.h.
use network_lirbary.Common.{
  ℕ, ◌+◌, ◌≤◌, arith, length-append, ◌/◌, ◌%◌, ◌^◌, ltb, if◌then◌else◌, [], ◌∷◌, ◌++◌, length,
  Bytes,
}

-- `for (i = 7; i >= 0; --i) push_back((len >> ((7 - i) * 8)) & 0xFF)`.
abbrev pub length_bytes : ℕ → Bytes
length_bytes len =
    (len % 256)
    ∷ (len / 2 ^ 8 % 256)
    ∷ (len / 2 ^ 16 % 256)
    ∷ (len / 2 ^ 24 % 256)
    ∷ (len / 2 ^ 32 % 256)
    ∷ (len / 2 ^ 40 % 256)
    ∷ (len / 2 ^ 48 % 256)
    ∷ (len / 2 ^ 56 % 256)
    ∷ []

-- The header of an unmasked final text frame, with a payload of `len` bytes.
unfoldable pub frame_header : ℕ → Bytes
frame_header len =
    if ltb len 126
    then 129 ∷ len ∷ []
    else if ltb len 65536
    then 129 ∷ 126 ∷ (len / 2 ^ 8 % 256) ∷ (len % 256) ∷ []
    else 129 ∷ 127 ∷ length_bytes len

unfoldable pub write_frame : Bytes → Bytes
write_frame payload = frame_header (length payload) ++ payload

-- The client's frame: masked with the key zero, and the length cut to seven bits.
unfoldable pub write_client_frame : Bytes → Bytes
write_client_frame payload = 129 ∷ (128 + length payload % 128) ∷ 0 ∷ 0 ∷ 0 ∷ 0 ∷ payload

pub length-write_frame : (payload : Bytes) → 2 ≤ length (write_frame payload)
unfolding write_frame frame_header
length-write_frame payload = ground (arith, length-append (frame_header (length payload)) payload)

-- ===== src/Protocol/Quic.antt =====
-- The QUIC mock: `QuicHandler` of lib_network/src/protocols/quic/quic_handler.cc, and
-- `QuicClientProtocol` of lib_network/include/network/core/client/protocols/quic_protocol.h. A
-- packet is a type, a stream's number in eight bytes, and a payload.
pub mod Echo
use network_lirbary.Common.Text.{codes}
use network_lirbary.Common.{
  ℕ, Bool, true, false, ◌==◌, ltb, if◌then◌else◌, [], ◌∷◌, ◌++◌, Option, none, some, drop, get_or,
  Bytes,
}
use network_lirbary.Memory.Buffer.{Buffer, readable_bytes, peek, retrieve_all}
use network_lirbary.Protocol.Host.{Host, App, send, calling, Handling}

-- `QuicHandler::OnMessage`
pub on_message : {World : Type 0} → Handling World → Handling World
on_message s =
    let bytes = peek s.input (readable_bytes s.input) in
    let answer = calling s.app (send (codes "QUIC-ACK: " ++ drop 9 bytes)) in
    if ltb (readable_bytes s.input) 9 then s else record {
      input = retrieve_all s.input;
      app = if get_or bytes 0 0 == 1 then answer else s.app;
    }

abbrev pub packet : Bytes → Bytes
packet payload = 1 ∷ 0 ∷ 0 ∷ 0 ∷ 0 ∷ 0 ∷ 0 ∷ 0 ∷ 0 ∷ payload

module _ (h : Host) where
  open h use {World, Envelope, serialize, empty, set_payload_data}

  -- `QuicClientProtocol::Send`
  pub send_quic : App World → Envelope → App World
  send_quic a e = calling a (send (packet (serialize e)))

  pub handed : Option (World → Envelope → World) → App World → Bytes → App World
  handed none a bytes = a
  handed (some f) a bytes = record a { world = f a.world (set_payload_data empty bytes) }

  -- `QuicClientProtocol::OnDataReceived`
  pub on_data_quic : Option (World → Envelope → World) → Handling World → Handling World
  on_data_quic handler s =
      if ltb 0 (readable_bytes s.input)
      then record {
        input = retrieve_all s.input;
        app = handed handler s.app (peek s.input (readable_bytes s.input));
      }
      else s

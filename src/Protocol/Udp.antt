-- ===== src/Protocol/Udp.antt =====
-- `EchoUdpHandler` of lib_network/src/protocols/udp/udp_handler.cc, and the loop over datagrams in
-- the callback of `Reactor::RegisterUdpServer`, lib_network/src/event/reactor.cc. Whether a
-- datagram could be sent is not looked at.
pub mod Replies
mod Tests
use network_lirbary.Common.Text.{codes}
use network_lirbary.Common.{
  ℕ, zero, suc, ◌+◌, ◌*◌, ◌/◌, ◌%◌, ◌^◌, ◌<◌, ◌≡◌, Bool, true, false, if◌then◌else◌, List, [], ◌∷◌,
  ◌++◌, Option, none, some, Bytes,
}
use network_lirbary.Protocol.Host.{Host, Handled, ContextCall, write_envelope, write_bytes, close}

-- `sockaddr_in`: the address and the port in network order.
pub record Address : Type 0 where
  pub addr : ℕ
  pub port : ℕ

-- `inet_ntop` and `inet_pton`, and what an address holds that was not initialised.
pub record Inet : Type 0 where
  pub ntop : ℕ → Bytes
  pub pton : Bytes → Option ℕ
  pub uninitialised : ℕ
  pub pton_back : (a : ℕ) → a < 2 ^ 32 → pton (ntop a) ≡ some a

-- `htons` and `ntohs` swap the bytes of the low 16 bits.
abbrev pub swap16 : ℕ → ℕ
swap16 x = x % 256 * 256 + x / 256 % 256

-- What `OnPacket` is given: where a datagram comes from, and what it holds.
pub record Packet : Type 0 where
  pub source_ip : Bytes
  pub source_port : ℕ
  pub payload : Bytes

-- `UdpStreamContext`
pub record Context : Type 0 where
  pub ip : Bytes
  pub port : ℕ

-- A datagram that was sent, with its destination.
pub record Datagram : Type 0 where
  pub to : Address
  pub payload : Bytes

pub record Serving (World : Type 0) : Type 0 where
  pub world : World
  pub sent : List Datagram

-- `UdpSocket::RecvFrom`: the packet of a datagram from an address.
pub received : Inet → Address → Bytes → Packet
received inet from payload = record {
  source_ip = inet.ntop from.addr;
  source_port = swap16 from.port;
  payload = payload;
}

-- Whether `inet_pton` failed is not looked at.
abbrev pub filled : Inet → Option ℕ → ℕ
filled inet none = inet.uninitialised
filled inet (some a) = a

pub address_of : Inet → Bytes → ℕ → Address
address_of inet ip port = record { addr = filled inet (inet.pton ip); port = swap16 port }

pub context_of : Packet → Context
context_of p = record { ip = p.source_ip; port = p.source_port }

module _ (h : Host) (inet : Inet) where
  open h use {
    World, Envelope, empty, parse, serialize, has_payload, set_payload_data, set_message_type,
    stream_handler, raw_handler,
  }

  -- `sendto`
  abbrev pub send_to : Address → Bytes → Serving World → Serving World
  send_to a bytes s = record s { sent = s.sent ++ record { to = a; payload = bytes } ∷ [] }

  -- `UdpStreamContext::Write`
  pub write : Context → Bytes → Serving World → Serving World
  write ctx bytes s = send_to (address_of inet ctx.ip ctx.port) bytes s

  pub perform : Context → Serving World → ContextCall Envelope → Serving World
  perform ctx s (write_envelope e) = write ctx (serialize e) s
  perform ctx s (write_bytes bytes) = write ctx bytes s
  perform ctx s close = s

  pub perform_all : Context → Serving World → List (ContextCall Envelope) → Serving World
  perform_all ctx s [] = s
  perform_all ctx s (c ∷ cs) = perform_all ctx (perform ctx s c) cs

  -- The request; bytes that do not parse are put into an envelope.
  pub request : Option Envelope → Bytes → Envelope
  request (some req) bytes = req
  request none bytes = set_message_type (set_payload_data empty bytes) (codes "udp.packet")

  -- What the stream handler has done, and the response unless it threw.
  pub answered : Context → Serving World → Handled World Envelope → Serving World
  answered ctx s r =
      let s1 = perform_all ctx (record s { world = r.world }) r.requests in
      let replied = write ctx (serialize r.response) s1 in
      if r.throws then s1 else if has_payload r.response then replied else s1

  pub raw_done : Context → Serving World → World × List (ContextCall Envelope) → Serving World
  raw_done ctx s (w, requests) = perform_all ctx (record s { world = w }) requests

  -- The raw handler comes first, then the stream handler; without either the packet goes back.
  pub handle :
      Option (World → Bytes → World × List (ContextCall Envelope))
      → Option (World → Envelope → Envelope → Handled World Envelope)
      → Packet
      → Serving World
      → Serving World
  handle (some raw) stream p s = raw_done (context_of p) s (raw s.world p.payload)
  handle none (some stream) p s =
      answered (context_of p) s (stream s.world (request (parse p.payload) p.payload) empty)
  handle none none p s = send_to (address_of inet p.source_ip p.source_port) p.payload s

  pub on_packet : Packet → Serving World → Serving World
  on_packet p s = handle raw_handler stream_handler p s

  -- An empty datagram ends the loop, as an error does.
  abbrev pub is_nothing : Bytes → Bool
  is_nothing [] = true
  is_nothing (x ∷ xs) = false

  -- `while (true)` around `RecvFrom`, on fuel; the system's `recvfrom` is a parameter.
  pub udp_callback :
      (World → Option (Address × Bytes) × World) → ℕ → Serving World → Option (Serving World)
  udp_callback receive zero s = none
  udp_callback receive (suc fuel) s =
      let (got, w) = receive s.world in
      elim got [
        | none ↦ some (record s { world = w })
        | some (from, payload) ↦ elim (is_nothing payload) [
          | true ↦ some (record s { world = w })
          | false ↦
              udp_callback receive fuel
                (on_packet (received inet from payload) (record s { world = w }))
        ]
      ]

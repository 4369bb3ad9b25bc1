-- ===== src/Protocol/Client.antt =====
-- The clients of the length-prefixed protocols: `TcpClientProtocol` and `RpcClientProtocol` of
-- lib_network/include/network/core/client/protocols (tcp_protocol.h and rpc_protocol.h). They
-- differ in what they send and in what they do about a length above 100 MB.
pub mod Delivery
use network_lirbary.Common.{
  ℕ, zero, suc, ◌+◌, ◌*◌, ◌/◌, ◌%◌, ◌^◌, ◌==◌, Bool, true, false, ltb, leb, if◌then◌else◌, List, [],
  ◌∷◌, ◌++◌, Option, none, some, length, Bytes, add32,
}
use network_lirbary.Memory.Buffer.{Buffer, readable_bytes, peek, retrieve, retrieve_all}
use network_lirbary.Protocol.Host.{
  Host, App, send, force_close, calling, Handling, Turn, again, stop, run_turns,
}
use network_lirbary.Protocol.Framing.{frame, peek_length}

abbrev pub max_message : ℕ
max_message = 100 * 1024 * 1024

-- `std::to_string` of a `uint64_t`, which has at most twenty digits.
unfoldable pub decimal : ℕ → ℕ → Bytes
decimal zero n = []
decimal (suc fuel) n =
    let front = decimal fuel (n / 10) in
    if ltb n 10 then (48 + n) ∷ [] else front ++ (48 + n % 10) ∷ []

-- `GenerateId`: the identifier, and the counter after it.
pub generate_id : ℕ → Bytes × ℕ
generate_id id_counter =
    (b'r' ∷ b'e' ∷ b'q' ∷ b'-' ∷ decimal 20 id_counter, (id_counter + 1) % 2 ^ 64)

-- "rpc.generic"
abbrev generic_type : Bytes
generic_type = b'r' ∷ b'p' ∷ b'c' ∷ b'.' ∷ b'g' ∷ b'e' ∷ b'n' ∷ b'e' ∷ b'r' ∷ b'i' ∷ b'c' ∷ []

module _ (h : Host) where
  open h use {
    World, Envelope, parse, serialize, has_header, correlation_id, set_message_type,
    set_correlation_id,
  }

  -- `TcpClientProtocol::Send`.
  pub send_tcp : App World → Envelope → App World
  send_tcp a envelope = calling a (send (frame (serialize envelope)))

  -- `RpcClientProtocol::Send`, with the counter of identifiers.
  pub send_rpc : App World × ℕ → Envelope → App World × ℕ
  send_rpc (a, id_counter) envelope =
      let msg = if has_header envelope then envelope else set_message_type envelope generic_type in
      let (id, next) = generate_id id_counter in
      let bare = length (correlation_id msg) == 0 in
      let sent = if bare then set_correlation_id msg id else msg in
      (calling a (send (frame (serialize sent))), if bare then next else id_counter)

module _ (h : Host) (handler : Option (h.World → h.Envelope → h.World)) where
  open h use {World, Envelope, parse}

  -- The message handler on a message that parses.
  pub deliver : Option (World → Envelope → World) → App World → Option Envelope → App World
  deliver none a msg = a
  deliver (some f) a none = a
  deliver (some f) a (some msg) = record a { world = f a.world msg }

  -- A whole message; no exception is caught or thrown here.
  unfoldable pub process : App World → Bytes → App World × Bool
  process a message = (deliver handler a (parse message), false)

  -- A message whose length is accepted, once it is there.
  pub receive : Handling World → ℕ → Turn (Handling World)
  receive s len =
      let b = retrieve s.input 4 in
      if leb (add32 4 len) (readable_bytes s.input)
      then again (record { input = retrieve b len; app = (process s.app (peek b len)).0 })
      else stop s

  -- A round of the loop; `refuse` is what is done about a length above the limit.
  pub turn : (Handling World → Handling World) → Handling World → Turn (Handling World)
  turn refuse s =
      let len = peek_length s.input in
      if ltb (readable_bytes s.input) 4
      then stop s
      else if ltb max_message len
      then stop (refuse s)
      else receive s len

  -- TCP clears the buffer, RPC closes the connection.
  pub refuse_tcp : Handling World → Handling World
  refuse_tcp s = record s { input = retrieve_all s.input }

  pub refuse_rpc : Handling World → Handling World
  refuse_rpc s = record s { app = calling s.app force_close }

  -- `OnDataReceived` of both.
  pub on_data_tcp : ℕ → Handling World → Option (Turn (Handling World))
  on_data_tcp fuel s = run_turns (turn refuse_tcp) fuel s

  pub on_data_rpc : ℕ → Handling World → Option (Turn (Handling World))
  on_data_rpc fuel s = run_turns (turn refuse_rpc) fuel s

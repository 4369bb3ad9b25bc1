-- ===== src/Protocol/Rpc.antt =====
-- `RpcHandler` of lib_network/src/protocols/rpc/rpc_handler.cc: messages with a four-byte length
-- prefix, each taken whole. The length test adds in `uint32_t`, and wraps.
pub mod Delivery
pub mod Stall
use network_lirbary.Common.{
  ℕ, ◌+◌, ◌++◌, Bool, true, false, ◌||◌, ltb, if◌then◌else◌, List, [], ◌∷◌, length, take, drop,
  Option, none, some, Bytes, add32,
}
use network_lirbary.Memory.Buffer.{Buffer, readable_bytes, retrieve}
use network_lirbary.Protocol.Host.{
  Host, ContextCall, write_envelope, write_bytes, close, Handled, send, force_close, App, calling,
  Handling, Turn, again, stop, escape, run_turns,
}
use network_lirbary.Protocol.Framing.{frame, peek_length, peek_behind_prefix}

-- ".response"
abbrev response_suffix : Bytes
response_suffix = b'.' ∷ b'r' ∷ b'e' ∷ b's' ∷ b'p' ∷ b'o' ∷ b'n' ∷ b's' ∷ b'e' ∷ []

module _ (h : Host) where
  open h use {
    World, Envelope, empty, parse, serialize, has_header, has_payload, message_id, message_type,
    payload_data, set_message_type, set_correlation_id, set_payload_data, stream_handler,
  }

  -- `RpcStreamContext`: bytes are framed as well.
  unfoldable pub perform : App World → ContextCall Envelope → App World
  perform a (write_envelope msg) = calling a (send (frame (serialize msg)))
  perform a (write_bytes bytes) = calling a (send (frame bytes))
  perform a close = calling a force_close

  unfoldable pub perform_all : App World → List (ContextCall Envelope) → App World
  perform_all a [] = a
  perform_all a (c ∷ cs) = perform_all (perform a c) cs

  -- The answer where no handler is registered.
  pub echo : Envelope → Envelope
  echo req =
      set_payload_data
        (set_correlation_id (set_message_type empty (message_type req ++ response_suffix))
          (message_id req))
        (payload_data req)

  unfoldable pub handle :
      Option (World → Envelope → Envelope → Handled World Envelope)
      → App World
      → Envelope
      → App World × Bool
  handle none a req =
      let payload = serialize (echo req) in
      (calling (calling a (send (take 4 (frame payload)))) (send payload), false)
  handle (some handler) a req =
      let r = handler a.world req empty in
      let a' = perform_all (record a { world = r.world }) r.requests in
      if r.throws then (a', true) else (
        if has_header r.response || has_payload r.response
            then perform a' (write_envelope r.response)
            else a',
        false,
      )

  unfoldable pub parsed : App World → Option Envelope → App World × Bool
  parsed a none = (a, false)
  parsed a (some req) = handle stream_handler a req

  unfoldable pub process : App World → Bytes → App World × Bool
  process a message = parsed a (parse message)

  -- An exception leaves before `Retrieve`.
  pub leave : Buffer → Buffer → App World × Bool → Turn (Handling World)
  leave before after (a, thrown) =
      let kept : Handling World = record { input = before; app = a } in
      let s : Handling World = record { input = after; app = a } in
      if thrown then escape kept else again s

  pub turn : Handling World → Turn (Handling World)
  turn s =
      let len = peek_length s.input in
      if ltb (readable_bytes s.input) 4
      then stop s
      else if ltb (readable_bytes s.input) (add32 4 len)
      then stop s
      else leave s.input (retrieve s.input (add32 4 len))
          (process s.app (peek_behind_prefix s.input len))

  -- `OnMessage`, on fuel for its loop.
  pub on_message : ℕ → Handling World → Option (Turn (Handling World))
  on_message fuel s = run_turns turn fuel s

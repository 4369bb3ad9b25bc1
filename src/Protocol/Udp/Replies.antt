-- ===== src/Protocol/Udp/Replies.antt =====
-- What a packet is answered with, and where the answers go.
use network_lirbary.Common.{
  ℕ, ◌^◌, ◌<◌, ◌≡◌, refl, sym, ap, ◌∙◌, Bool, true, false, if◌then◌else◌, List, [], ◌∷◌, ◌++◌, map,
  append_assoc, append-nil, Option, none, some, Bytes, arith,
}
use network_lirbary.Protocol.Host.{Host, Handled, ContextCall, write_envelope, write_bytes, close}
use network_lirbary.Protocol.Udp.{
  Address, Inet, swap16, Packet, Context, Datagram, Serving, received, address_of, context_of,
  write, perform, perform_all, answered, raw_done, handle, on_packet, request,
}

abbrev pub datagram : Address → Bytes → Datagram
datagram a bytes = record { to = a; payload = bytes }

module _ (h : Host) (inet : Inet) where
  open h use {World, Envelope, serialize, has_payload, parse, empty, stream_handler, raw_handler}

  -- What a handler has asked its context to write.
  abbrev pub written : List (ContextCall Envelope) → List Bytes
  written [] = []
  written (write_envelope e ∷ cs) = serialize e ∷ written cs
  written (write_bytes bytes ∷ cs) = bytes ∷ written cs
  written (close ∷ cs) = written cs

  -- The response follows what was written, unless the handler threw or left it empty.
  abbrev pub response_of : Handled World Envelope → List Bytes
  response_of r =
      if r.throws then [] else (if has_payload r.response then serialize r.response ∷ [] else [])

  abbrev pub replies_of :
      Option (World → Bytes → World × List (ContextCall Envelope))
      → Option (World → Envelope → Envelope → Handled World Envelope)
      → World
      → Bytes
      → List Bytes
  replies_of (some raw) stream w payload = written (raw w payload).1
  replies_of none (some stream) w payload =
      let r = stream w (request h inet (parse payload) payload) empty in
      written r.requests ++ response_of r
  replies_of none none w payload = payload ∷ []

  -- What a packet is answered with, by the handler that there is.
  abbrev pub replies : World → Bytes → List Bytes
  replies = replies_of raw_handler stream_handler

  swap16-swap16 : (x : ℕ) → x < 2 ^ 16 → swap16 (swap16 x) ≡ x
  swap16-swap16 x p = omega arith

  -- The address comes back from its text, and the port from its host order.
  back_to :
      (from : Address)
      → from.addr < 2 ^ 32
      → from.port < 2 ^ 16
      → address_of inet (inet.ntop from.addr) (swap16 from.port) ≡ from
  unfolding address_of
  back_to from p q =
      rw (inet.pton_back from.addr p)
        (ap (λ n. record { addr = from.addr; port = n }) (swap16-swap16 from.port q))

  abbrev to_of : Context → Address
  to_of ctx = address_of inet ctx.ip ctx.port

  perform_all-sent :
      (ctx : Context) (cs : List (ContextCall Envelope)) (s : Serving World)
      → (perform_all h inet ctx s cs).sent ≡ s.sent ++ map (datagram (to_of ctx)) (written cs)
  unfolding perform_all perform write
  perform_all-sent ctx [] s = sym (append-nil s.sent)
  perform_all-sent ctx (write_envelope e ∷ cs) s =
      perform_all-sent ctx cs (perform h inet ctx s (write_envelope e))
      ∙ append_assoc s.sent (datagram (to_of ctx) (serialize e) ∷ []) _
  perform_all-sent ctx (write_bytes bytes ∷ cs) s =
      perform_all-sent ctx cs (perform h inet ctx s (write_bytes bytes))
      ∙ append_assoc s.sent (datagram (to_of ctx) bytes ∷ []) _
  perform_all-sent ctx (close ∷ cs) s = perform_all-sent ctx cs s

  map-append : (f : Bytes → Datagram) (xs ys : List Bytes) → map f (xs ++ ys) ≡ map f xs ++ map f ys
  map-append f [] ys = refl
  map-append f (x ∷ xs) ys = ap (◌∷◌ (f x)) (map-append f xs ys)

  -- A response is or is not sent behind what there is.
  finished-sent :
      (throws there : Bool) (a : Address) (bytes : Bytes) (s : Serving World)
      → (if throws
          then s
          else (if there then record s { sent = s.sent ++ datagram a bytes ∷ [] } else s)).sent
        ≡ s.sent ++ map (datagram a) (if throws then [] else (if there then bytes ∷ [] else []))
  finished-sent true there a bytes s = sym (append-nil s.sent)
  finished-sent false true a bytes s = refl
  finished-sent false false a bytes s = sym (append-nil s.sent)

  answered-sent :
      (ctx : Context) (s : Serving World) (r : Handled World Envelope)
      → (answered h inet ctx s r).sent
        ≡ s.sent ++ map (datagram (to_of ctx)) (written r.requests ++ response_of r)
  unfolding answered write
  answered-sent ctx s r =
      let s1 = perform_all h inet ctx (record s { world = r.world }) r.requests in
      finished-sent r.throws (has_payload r.response) (to_of ctx) (serialize r.response) s1
      ∙ ap (λ l. l ++ map (datagram (to_of ctx)) (response_of r))
          (perform_all-sent ctx r.requests (record s { world = r.world }))
      ∙ append_assoc s.sent (map (datagram (to_of ctx)) (written r.requests)) _
      ∙ ap (◌++◌ s.sent)
          (sym (map-append (datagram (to_of ctx)) (written r.requests) (response_of r)))

  handle-sent :
      (p : Packet) (s : Serving World)
      (raw : Option (World → Bytes → World × List (ContextCall Envelope)))
      (stream : Option (World → Envelope → Envelope → Handled World Envelope))
      → (handle h inet raw stream p s).sent
        ≡ s.sent
          ++ map
              (datagram (address_of inet p.source_ip p.source_port))
              (replies_of raw stream s.world p.payload)
  unfolding handle raw_done context_of
  handle-sent p s (some raw) stream =
      perform_all-sent (context_of p) (raw s.world p.payload).1
        (record s { world = (raw s.world p.payload).0 })
  handle-sent p s none (some stream) = answered-sent (context_of p) s _
  handle-sent p s none none = refl

  -- A datagram from an address of 32 bits and a port of 16 bits, in network order, is received and
  -- handled, with any handlers, whatever they ask of their context and whether the stream handler
  -- throws: what was sent before is kept, and then exactly the answers are sent, in order, each to
  -- the address and port that the datagram came from. The answers are what the raw handler writes,
  -- or else what the stream handler writes and then its response, unless it threw or left the
  -- response empty, or else, without a handler, the payload itself.
  pub on_packet-replies :
      (from : Address) (payload : Bytes) (s : Serving World)
      → from.addr < 2 ^ 32
      → from.port < 2 ^ 16
      → (on_packet h inet (received inet from payload) s).sent
        ≡ s.sent ++ map (datagram from) (replies s.world payload)
  unfolding on_packet received
  on_packet-replies from payload s p q =
      handle-sent (received inet from payload) s raw_handler stream_handler
      ∙ ap (λ a. s.sent ++ map (datagram a) (replies s.world payload)) (back_to from p q)

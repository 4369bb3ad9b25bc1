-- ===== src/Protocol/Client/Delivery.antt =====
-- What the clients make of their input.
use network_lirbary.Common.{
  ℕ, ◌+◌, ◌≤◌, ◌<◌, ◌≡◌, refl, inl, inr, false, Bool-cases, ltb, lt→ltb, le→ltb, le→leb, lt→leb,
  ltb→le, List, [], ◌∷◌, ◌++◌, All, Option, some, length, take, Bytes, add32, of_be32, arith,
}
use network_lirbary.Memory.Buffer.{Buffer, readable_bytes, retrieve}
use network_lirbary.Memory.Buffer.Contents.{IsValid, contents, Queued, readable_bytes-eq}
use network_lirbary.Protocol.Host.{Host, App, Handling, Turn, again, stop}
use network_lirbary.Protocol.Framing.{
  frame, frames, peek_length-eq, readable-frame, peek_length-frame, peek_message, after_message,
  IsPartial, process_all, IsQuiet, drain,
}
use network_lirbary.Protocol.Client.{
  max_message, process, receive, turn, refuse_tcp, refuse_rpc, on_data_tcp, on_data_rpc,
}

module _ (h : Host) (handler : Option (h.World → h.Envelope → h.World))
    (refuse : Handling h.World → Handling h.World) where
  open h use {World}

  receive-frame :
      (s : Handling World) (m more : Bytes)
      → IsValid s.input
      → contents s.input ≡ frame m ++ more
      → length m ≤ max_message
      → receive h handler s (length m)
        ≡ again (record {
          input = retrieve (retrieve s.input 4) (length m);
          app = (process h handler s.app m).0;
        })
  unfolding receive
  receive-frame s m more v e fit =
      let exact : add32 4 (length m) ≡ 4 + length m = omega arith in
      rw (
        exact,
        readable-frame s.input m more v e,
        peek_message s.input m more v e,
        le→leb (4 + length m) (4 + (length m + length more)) (omega arith),
      )

  on_frame :
      (s : Handling World) (m more : Bytes)
      → IsValid s.input
      → contents s.input ≡ frame m ++ more
      → length m ≤ max_message
      → (process h handler s.app m).1 ≡ false
      → (b : Buffer) × (turn h handler refuse s
          ≡ again (record { input = b; app = (process h handler s.app m).0 }))
        × Queued b more
  unfolding turn
  on_frame s m more v e fit quiet =
      rw
        (
          peek_length-frame s.input m more v e (omega arith),
          readable-frame s.input m more v e,
          le→ltb (4 + (length m + length more)) 4 (omega arith),
          le→ltb max_message (length m) fit,
        )
        (
          retrieve (retrieve s.input 4) (length m),
          receive-frame s m more v e fit,
          after_message s.input m more v e,
        )

  on_rest :
      (s : Handling World)
      → IsValid s.input
      → IsPartial max_message (contents s.input)
      → turn h handler refuse s ≡ stop s
  unfolding turn receive
  on_rest s v (inl short) = rw (readable_bytes-eq s.input v, lt→ltb _ _ short)
  on_rest s v (inr (accepted, short)) = elim (Bool-cases (ltb (readable_bytes s.input) 4)) [
    | inl few ↦ rw few
    | inr four ↦
        let len = of_be32 (take 4 (contents s.input)) in
        let exact : add32 4 len ≡ 4 + len = omega arith in
        let there : 4 ≤ length (contents s.input) =
          omega (arith, ltb→le _ _ four, readable_bytes-eq s.input v) in
        rw (
          four,
          peek_length-eq s.input v there,
          exact,
          le→ltb max_message len accepted,
          readable_bytes-eq s.input v,
          lt→leb (4 + len) (length (contents s.input)) short,
        )
  ]

quiet :
    (h : Host) (handler : Option (h.World → h.Envelope → h.World)) (a : App h.World)
    (ms : List Bytes)
    → IsQuiet (process h handler) a ms
unfolding process
quiet h handler a [] = tt
quiet h handler a (m ∷ ms) = (refl, quiet h handler (process h handler a m).0 ms)

-- What `OnDataReceived` leaves: the messages handled in order, and the rest in the buffer.
abbrev pub Delivers :
    (h : Host) (handler : Option (h.World → h.Envelope → h.World))
    → Option (Turn (Handling h.World))
    → App h.World
    → List Bytes
    → Bytes
    → Type 0
Delivers h handler result a ms rest =
    (b : Buffer) × (result
      ≡ some (stop (record { input = b; app = process_all (process h handler) a ms })))
    × Queued b rest

-- On a valid buffer that holds whole frames of messages of at most 100 MB and then an incomplete
-- one, `OnDataReceived` of both clients ends within one round more than there are messages, has
-- handed exactly these messages to the message handler in their order, each once, and leaves
-- exactly the incomplete rest in the buffer.
pub on_data-Delivers :
    (h : Host) (handler : Option (h.World → h.Envelope → h.World)) (s : Handling h.World)
    (ms : List Bytes) (rest : Bytes) (fuel : ℕ)
    → IsValid s.input
    → contents s.input ≡ frames ms ++ rest
    → All (λ m. length m ≤ max_message) ms
    → IsPartial max_message rest
    → length ms < fuel
    → Delivers h handler (on_data_tcp h handler fuel s) s.app ms rest
      × Delivers h handler (on_data_rpc h handler fuel s) s.app ms rest
unfolding on_data_tcp on_data_rpc
on_data-Delivers h handler s ms rest fuel v e fit p enough =
    let q = quiet h handler s.app ms in
    (
      drain (turn h handler (refuse_tcp h handler)) (process h handler) max_message
          (on_frame h handler (refuse_tcp h handler)) (on_rest h handler (refuse_tcp h handler)) s
          ms rest fuel v e fit p q enough,
      drain (turn h handler (refuse_rpc h handler)) (process h handler) max_message
          (on_frame h handler (refuse_rpc h handler)) (on_rest h handler (refuse_rpc h handler)) s
          ms rest fuel v e fit p q enough,
    )

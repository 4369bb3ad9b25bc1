-- ===== src/Protocol/Tcp/Delivery.antt =====
-- What the TCP handler makes of its input.
use network_lirbary.Common.{
  ℕ, suc, ◌+◌, ◌≤◌, ◌<◌, ◌≡◌, ◌∙◌, ap, inl, inr, Bool, false, Bool-cases, ltb, lt→ltb, le→ltb,
  le→leb, lt→leb, ltb→le, List, ◌++◌, All, length, take, none, some, Bytes, add32, of_be32, arith,
}
use network_lirbary.Memory.Buffer.{Buffer, readable_bytes, retrieve}
use network_lirbary.Memory.Buffer.Contents.{IsValid, contents, Queued, readable_bytes-eq}
use network_lirbary.Protocol.Host.{
  Host, App, Handling, again, stop, force_close, calling, run_turns, run_turns-stop,
}
use network_lirbary.Protocol.Framing.{
  frame, frames, peek_length-eq, readable-frame, peek_length-frame, peek_message, after_message,
  after_frame, IsPartial, process_all, IsQuiet, drain,
}
use network_lirbary.Protocol.Tcp.{
  max_message, process, leave, receive, turn, on_message, on_message_with,
}

module _ (h : Host) where
  open h use {World, check_rate_limit, raw_handler}

  leave_quiet :
      (b : Buffer) (r : App World × Bool)
      → r.1 ≡ false
      → leave h b r ≡ again (record { input = b; app = r.0 })
  unfolding leave
  leave_quiet b r q = rw q

  receive-frame :
      (s : Handling World) (m more : Bytes)
      → IsValid s.input
      → contents s.input ≡ frame m ++ more
      → length m ≤ max_message
      → (process h s.app m).1 ≡ false
      → (b : Buffer) × (receive h s (length m)
          ≡ again (record { input = b; app = (process h s.app m).0 }))
        × Queued b more
  unfolding receive
  receive-frame s m more v e fit quiet =
      let exact : add32 4 (length m) ≡ 4 + length m = omega arith in
      rw
        (
          exact,
          readable-frame s.input m more v e,
          peek_message s.input m more v e,
          le→leb (4 + length m) (4 + (length m + length more)) (omega arith),
        )
        (elim (Bool-cases (check_rate_limit s.app.world).0) [
          | inl allowed ↦ rw allowed (
            retrieve (retrieve s.input 4) (length m),
            leave_quiet _ (process h s.app m) quiet,
            after_message s.input m more v e,
          )
          | inr refused ↦ rw refused (
            retrieve s.input (4 + length m),
            leave_quiet _ (process h s.app m) quiet,
            after_frame s.input m more v e,
          )
        ])

  on_frame :
      (s : Handling World) (m more : Bytes)
      → IsValid s.input
      → contents s.input ≡ frame m ++ more
      → length m ≤ max_message
      → (process h s.app m).1 ≡ false
      → (b : Buffer) × (turn h s ≡ again (record { input = b; app = (process h s.app m).0 }))
        × Queued b more
  unfolding turn
  on_frame s m more v e fit quiet =
      rw
        (
          peek_length-frame s.input m more v e (omega arith),
          readable-frame s.input m more v e,
          le→ltb (4 + (length m + length more)) 4 (omega arith),
          le→ltb max_message (length m) fit,
        )
        (receive-frame s m more v e fit quiet)

  on_rest :
      (s : Handling World)
      → IsValid s.input
      → IsPartial max_message (contents s.input)
      → turn h s ≡ stop s
  unfolding turn receive
  on_rest s v (inl short) = rw (readable_bytes-eq s.input v, lt→ltb _ _ short)
  on_rest s v (inr (accepted, short)) = elim (Bool-cases (ltb (readable_bytes s.input) 4)) [
    | inl few ↦ rw few
    | inr four ↦
        let len = of_be32 (take 4 (contents s.input)) in
        let exact : add32 4 len ≡ 4 + len = omega arith in
        let there : 4 ≤ length (contents s.input) =
          omega (arith, ltb→le _ _ four, readable_bytes-eq s.input v) in
        rw (
          four,
          peek_length-eq s.input v there,
          exact,
          le→ltb max_message len accepted,
          readable_bytes-eq s.input v,
          lt→leb (4 + len) (length (contents s.input)) short,
        )
  ]

on_message-framed :
    (h : Host) (fuel : ℕ) (s : Handling h.World)
    → h.raw_handler ≡ none
    → on_message h fuel s ≡ run_turns (turn h) fuel s
unfolding on_message on_message_with
on_message-framed h fuel s raw = ap (λ r. on_message_with h r fuel s) raw

-- Without a raw handler, on a valid buffer that holds whole frames of messages of at most 100 MB
-- and then an incomplete one, if the application throws on none of them: `OnMessage` ends within
-- one round more than there are messages, has processed exactly these messages in their order,
-- each once, and leaves exactly the incomplete rest in the buffer.
pub on_message_delivers :
    (h : Host) (s : Handling h.World) (ms : List Bytes) (rest : Bytes) (fuel : ℕ)
    → h.raw_handler ≡ none
    → IsValid s.input
    → contents s.input ≡ frames ms ++ rest
    → All (λ m. length m ≤ max_message) ms
    → IsPartial max_message rest
    → IsQuiet (process h) s.app ms
    → length ms < fuel
    → (b : Buffer) × (on_message h fuel s
        ≡ some (stop (record { input = b; app = process_all (process h) s.app ms })))
      × Queued b rest
on_message_delivers h s ms rest fuel raw v e fit p q enough =
    let (b, done, left) =
      drain (turn h) (process h) max_message (on_frame h) (on_rest h) s ms rest fuel v e fit p q
        enough in
    (b, on_message-framed h fuel s raw ∙ done, left)

-- A length prefix above 100 MB makes `OnMessage` close the connection at once: no message is
-- processed, and nothing is taken from the buffer.
pub on_message_oversized :
    (h : Host) (s : Handling h.World) (fuel : ℕ)
    → h.raw_handler ≡ none
    → IsValid s.input
    → 4 ≤ length (contents s.input)
    → max_message < of_be32 (take 4 (contents s.input))
    → on_message h (suc fuel) s ≡ some (stop (record s { app = calling s.app force_close }))
unfolding turn
on_message_oversized h s fuel raw v four large =
    on_message-framed h (suc fuel) s raw
    ∙ (run_turns-stop (turn h) fuel s _ (
        rw (
          readable_bytes-eq s.input v,
          le→ltb (length (contents s.input)) 4 four,
          peek_length-eq s.input v four,
          lt→ltb max_message _ large,
        )))

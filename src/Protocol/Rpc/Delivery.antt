-- ===== src/Protocol/Rpc/Delivery.antt =====
-- What the RPC handler makes of its input.
use network_lirbary.Common.{
  ℕ, ◌+◌, ◌-◌, ◌^◌, ◌≤◌, ◌<◌, ◌≡◌, inl, inr, Bool, false, Bool-cases, ltb, ltb→le, lt→ltb, le→ltb,
  List, ◌++◌, All, length, take, some, Bytes, add32, of_be32, arith,
}
use network_lirbary.Memory.Buffer.{Buffer, readable_bytes, retrieve}
use network_lirbary.Memory.Buffer.Contents.{IsValid, contents, Queued, readable_bytes-eq}
use network_lirbary.Protocol.Host.{Host, App, Handling, again, stop}
use network_lirbary.Protocol.Framing.{
  frame, frames, peek_length-eq, peek_behind_prefix-frame, readable-frame, peek_length-frame,
  after_frame, IsPartial, process_all, IsQuiet, drain,
}
use network_lirbary.Protocol.Rpc.{process, leave, turn, on_message}

-- The longest message whose framed length does not wrap in `uint32_t`.
abbrev pub max_unwrapped : ℕ
max_unwrapped = 2 ^ 32 - 5

module _ (h : Host) where
  open h use {World}

  leave_quiet :
      (before after : Buffer) (r : App World × Bool)
      → r.1 ≡ false
      → leave h before after r ≡ again (record { input = after; app = r.0 })
  unfolding leave
  leave_quiet before after r q = rw q

  on_frame :
      (s : Handling World) (m more : Bytes)
      → IsValid s.input
      → contents s.input ≡ frame m ++ more
      → length m ≤ max_unwrapped
      → (process h s.app m).1 ≡ false
      → (b : Buffer) × (turn h s ≡ again (record { input = b; app = (process h s.app m).0 }))
        × Queued b more
  unfolding turn
  on_frame s m more v e fit quiet =
      let exact : add32 4 (length m) ≡ 4 + length m = omega arith in
      rw
        (
          peek_length-frame s.input m more v e (omega arith),
          readable-frame s.input m more v e,
          peek_behind_prefix-frame s.input m more v e,
          exact,
          le→ltb (4 + (length m + length more)) 4 (omega arith),
          le→ltb (4 + (length m + length more)) (4 + length m) (omega arith),
        )
        (
          retrieve s.input (4 + length m),
          leave_quiet s.input _ (process h s.app m) quiet,
          after_frame s.input m more v e,
        )

  on_rest :
      (s : Handling World)
      → IsValid s.input
      → IsPartial max_unwrapped (contents s.input)
      → turn h s ≡ stop s
  unfolding turn
  on_rest s v (inl short) = rw (readable_bytes-eq s.input v, lt→ltb _ _ short)
  on_rest s v (inr (accepted, short)) = elim (Bool-cases (ltb (readable_bytes s.input) 4)) [
    | inl few ↦ rw few
    | inr four ↦
        let len = of_be32 (take 4 (contents s.input)) in
        let exact : add32 4 len ≡ 4 + len = omega arith in
        let there : 4 ≤ length (contents s.input) =
          omega (arith, ltb→le _ _ four, readable_bytes-eq s.input v) in
        rw (
          four,
          peek_length-eq s.input v there,
          exact,
          readable_bytes-eq s.input v,
          lt→ltb (length (contents s.input)) (4 + len) short,
        )
  ]

-- On a valid buffer that holds whole frames of messages of at most 2^32 - 5 bytes and then an
-- incomplete one, if the application throws on none of them: `OnMessage` ends within one round
-- more than there are messages, has processed exactly these messages in their order, each once,
-- and leaves exactly the incomplete rest in the buffer.
pub on_message_delivers_rpc :
    (h : Host) (s : Handling h.World) (ms : List Bytes) (rest : Bytes) (fuel : ℕ)
    → IsValid s.input
    → contents s.input ≡ frames ms ++ rest
    → All (λ m. length m ≤ max_unwrapped) ms
    → IsPartial max_unwrapped rest
    → IsQuiet (process h) s.app ms
    → length ms < fuel
    → (b : Buffer) × (on_message h fuel s
        ≡ some (stop (record { input = b; app = process_all (process h) s.app ms })))
      × Queued b rest
unfolding on_message
on_message_delivers_rpc h s ms rest fuel v e fit p q enough =
    drain (turn h) (process h) max_unwrapped (on_frame h) (on_rest h) s ms rest fuel v e fit p q
      enough

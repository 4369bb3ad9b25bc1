-- ===== src/Protocol/Rpc/Stall.antt =====
-- The length prefix 2^32 - 4: with the four bytes of the prefix it wraps to zero.
use network_lirbary.Common.{
  ℕ, zero, suc, ◌-◌, ◌^◌, ◌≤◌, ◌≡◌, refl, ◌∙◌, Bool, false, le→ltb, length, take, none, Bytes,
  of_be32, arith,
}
use network_lirbary.Memory.Buffer.{Buffer}
use network_lirbary.Memory.Buffer.Contents.{IsValid, contents, readable_bytes-eq, retrieve_zero}
use network_lirbary.Protocol.Host.{Host, App, Handling, again, run_turns, run_turns-again}
use network_lirbary.Protocol.Framing.{peek_length-eq, peek_behind_prefix}
use network_lirbary.Protocol.Rpc.{process, leave, turn, on_message}

module _ (h : Host) where
  open h use {World}

  leave_again :
      (b : Buffer) (r : App World × Bool)
      → r.1 ≡ false
      → leave h b b r ≡ again (record { input = b; app = r.0 })
  unfolding leave
  leave_again b r q = rw q

  stalled_turn :
      (s : Handling World)
      → IsValid s.input
      → 4 ≤ length (contents s.input)
      → of_be32 (take 4 (contents s.input)) ≡ 2 ^ 32 - 4
      → ((a : App World) (m : Bytes) → (process h a m).1 ≡ false)
      → (a : App World) × (turn h s ≡ again (record { input = s.input; app = a }))
  unfolding turn
  stalled_turn s v four len quiet =
      let r = process h s.app (peek_behind_prefix s.input (2 ^ 32 - 4)) in
      (
        r.0,
        rw
            (
              peek_length-eq s.input v four ∙ len,
              readable_bytes-eq s.input v,
              le→ltb (length (contents s.input)) 4 four,
              retrieve_zero s.input v (omega arith),
              le→ltb (length (contents s.input)) 0 (omega arith),
            )
            (leave_again s.input r (quiet s.app _)),
      )

-- If the first four readable bytes of a valid buffer are the length 2^32 - 4, and the application
-- never throws, the loop of `OnMessage` does not end: no amount of fuel is enough.
pub on_message_stalls :
    (h : Host) (s : Handling h.World) (fuel : ℕ)
    → IsValid s.input
    → 4 ≤ length (contents s.input)
    → of_be32 (take 4 (contents s.input)) ≡ 2 ^ 32 - 4
    → ((a : App h.World) (m : Bytes) → (process h a m).1 ≡ false)
    → on_message h fuel s ≡ none
unfolding on_message run_turns
on_message_stalls h s zero v four len quiet = refl
on_message_stalls h s (suc fuel) v four len quiet =
    let (a, went) = stalled_turn h s v four len quiet in
    run_turns-again (turn h) fuel s _ went
    ∙ on_message_stalls h (record { input = s.input; app = a }) fuel v four len quiet

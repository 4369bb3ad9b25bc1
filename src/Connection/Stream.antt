-- ===== src/Connection/Stream.antt =====
-- `HandleWrite` and `Send` keep the outgoing stream.
pub mod Steps
use network_lirbary.Common.{
  ℕ, zero, suc, ◌&&◌, not, ◌==◌, ◌+◌, ◌^◌, ◌<◌, ◌≡◌, ◌≢◌, refl, sym, ◌∙◌, ap, ap₂, inl, inr, Bool,
  true, Bool-cases, ltb, ltb→lt, [], ◌∷◌, ◌++◌, Option, some, length, take, drop, Bytes, take_all,
  take-append-drop, append_assoc, length-append, length-drop, arith,
}
use network_lirbary.Memory.Buffer.{Buffer, readable_bytes, peek, retrieve, append}
use network_lirbary.Memory.Buffer.Contents.{
  IsValid, contents, append-Queued, retrieve-Queued, readable_bytes-eq, peek_lem,
}
use network_lirbary.Connection.Sockets.{Io, WriteResult, wrote, Writes}
use network_lirbary.Connection.{
  Connection, State, handle_close, handle_error, report_failure, write_loop, write_done,
  after_write, send_in_loop, after_direct_write, Flush, go_on, break, leave, handle_write,
  handle_write_in, established, after_step, send, notify_output, is_disconnected, is_connected,
}
use Steps.{
  and_left, length_zero, stream, Carries, StepCarries, handle_error-Carries, after_write-Carries,
  write_done-Carries, taken,
}

module _ (io : Io) where
  open io use {World, accepted, write, write_law, socket_ok, socket_ok-accepted}

  pub Sent : Option (Connection World) → Bytes → Type 0
  Sent o bytes = (c' : Connection World) × (o ≡ some c') × Carries io c' bytes

  after_step-Carries :
      (fuel : ℕ) (c : Connection World) (bytes : Bytes) (step : Flush World)
      → StepCarries io c bytes step
      → length (contents c.output) < suc fuel
      → ((c' : Connection World)
          → Carries io c' bytes
          → length (contents c'.output) < fuel
          → Sent (write_loop io fuel c') bytes)
      → Sent (after_step io (write_loop io fuel) step) bytes
  unfolding Sent
  after_step-Carries fuel c bytes (go_on c') v h loop = loop c' v.0 (omega (arith, v.1))
  after_step-Carries fuel c bytes (break c') v h loop =
      (write_done io c', refl, write_done-Carries io c' bytes v)
  after_step-Carries fuel c bytes (leave c') v h loop = (c', refl, v)

  -- With more fuel than bytes to write, the loop ends, and the stream is what it was.
  write_loop-Carries :
      (fuel : ℕ) (c : Connection World) (bytes : Bytes)
      → Carries io c bytes
      → length (contents c.output) < fuel
      → Sent (write_loop io fuel c) bytes
  unfolding write_loop Sent
  write_loop-Carries zero c bytes v h = absurd (omega arith)
  write_loop-Carries (suc fuel) c bytes v h =
      elim (Bool-cases (ltb 0 (readable_bytes c.output) && not (is_disconnected c.state))) [
        | inl e ↦ rw e (
            after_step-Carries fuel c bytes
              (after_write io c (write c.ssl (peek c.output (readable_bytes c.output)) c.world))
              (after_write-Carries io c bytes _ v (some_left e) (write_law c.ssl _ c.world)) h
              (λ c' v' h'. write_loop-Carries fuel c' bytes v' h'))
        | inr e ↦ rw e (write_done io c, refl, write_done-Carries io c bytes v)
      ]
    where
      some_left :
          ltb 0 (readable_bytes c.output) && not (is_disconnected c.state) ≡ true
          → 0 < length (contents c.output)
      some_left e = omega (
        arith,
        readable_bytes-eq c.output v.valid,
        ltb→lt 0 (readable_bytes c.output)
            (and_left (ltb 0 (readable_bytes c.output)) (not (is_disconnected c.state)) e),
      )

  handle_write_in-Carries :
      (st : State) (on_message : Connection World → Connection World) (fuel : ℕ)
      (c : Connection World) (bytes : Bytes)
      → st ≢ State.handshaking
      → Carries io c bytes
      → length (contents c.output) < fuel
      → Sent (handle_write_in io st on_message fuel c) bytes
  unfolding handle_write_in established Sent stream
  handle_write_in-Carries State.disconnected on_message fuel c bytes n v h = (c, refl, v)
  handle_write_in-Carries State.handshaking on_message fuel c bytes n v h = absurd (n refl)
  handle_write_in-Carries State.connected on_message fuel c bytes n v h =
      write_loop-Carries fuel c bytes v h
  handle_write_in-Carries State.disconnecting on_message fuel c bytes n v h =
      write_loop-Carries fuel c bytes v h
  handle_write_in-Carries State.connecting on_message fuel c bytes n v h =
      let same = ap (λ a. a ++ contents c.output) (socket_ok-accepted c.world) ∙ v.holds in
      elim (Bool-cases (socket_ok c.world).0) [
        | inl e ↦ rw e (
            write_loop-Carries fuel (established io c (socket_ok c.world).1) bytes
              (record { valid = v.valid; holds = same }) h)
        | inr e ↦ rw e (
          handle_error _,
          refl,
          handle_error-Carries io (record c { world = (socket_ok c.world).1 }) bytes
              (record { valid = v.valid; holds = same }),
        )
      ]

  -- On a connection that is not in its TLS handshake, with a valid output buffer, `HandleWrite`
  -- ends within one round more than there are bytes to write; however the socket behaves, the
  -- bytes that it has accepted and those still in the output buffer make up the same stream as
  -- before.
  pub handle_write-Carries :
      (on_message : Connection World → Connection World) (fuel : ℕ) (c : Connection World)
      (bytes : Bytes)
      → c.state ≢ State.handshaking
      → Carries io c bytes
      → length (contents c.output) < fuel
      → Sent (handle_write io on_message fuel c) bytes
  unfolding handle_write
  handle_write-Carries on_message fuel c bytes n v h =
      handle_write_in-Carries c.state on_message fuel c bytes n v h

  appended :
      (c : Connection World) (bytes more : Bytes)
      → Carries io c bytes
      → c.output.writer_index + length more < 2 ^ 63
      → Carries io (record c { output = append c.output more }) (bytes ++ more)
  unfolding stream
  appended c bytes more v h =
      let q = append-Queued c.output more v.valid h in
      record {
        valid = q.valid;
        holds =
            ap (◌++◌ (accepted c.world)) q.holds
            ∙ sym (append_assoc (accepted c.world) (contents c.output) more)
            ∙ ap (λ s. s ++ more) v.holds;
      }

  -- With nothing else in the output buffer, what `Send` writes directly is its front.
  direct-Carries :
      (c : Connection World) (bytes more : Bytes) (r : WriteResult × World)
      → Carries io c bytes
      → contents c.output ≡ more
      → Writes accepted more c.world r
      → Carries io (after_direct_write io c r) bytes
  unfolding after_direct_write stream
  direct-Carries c bytes more (wrote n, w) v e law = taken io c w bytes more n v (sym e) law.2
  direct-Carries c bytes more (WriteResult.retry, w) v e law = record {
    valid = v.valid;
    holds = ap (λ a. a ++ contents c.output) law ∙ v.holds;
  }
  direct-Carries c bytes more (WriteResult.fatal, w) v e law = record {
    valid = v.valid;
    holds = ap (λ a. a ++ contents c.output) law ∙ v.holds;
  }

  only_appended :
      (c : Connection World) (bytes more : Bytes)
      → Carries io c bytes
      → c.output.writer_index + length more < 2 ^ 63
      → readable_bytes (append c.output more) ≡ length more
      → contents (append c.output more) ≡ more
  only_appended c bytes more v h e =
      let q = append-Queued c.output more v.valid h in
      q.holds
      ∙ ap (λ front. front ++ more)
          (length_zero (contents c.output) (
            omega (
              arith,
              e,
              readable_bytes-eq (append c.output more) q.valid,
              ap length q.holds,
              length-append (contents c.output) more,
            )))

  notified :
      (c : Connection World) (bytes : Bytes)
      → Carries io c bytes
      → Carries io (notify_output c) bytes
  unfolding notify_output stream
  notified c bytes v = elim (Bool-cases (ltb 0 (readable_bytes c.output))) [
    | inl e ↦ rw e (record { valid = v.valid; holds = v.holds })
    | inr e ↦ rw e v
  ]

  -- `Send` from the loop's thread, with a valid output buffer and room below 2^63, adds exactly its
  -- bytes at the end of the stream, whether it writes directly, in part, or not at all.
  pub send-Carries :
      (c : Connection World) (bytes more : Bytes)
      → Carries io c bytes
      → c.output.writer_index + length more < 2 ^ 63
      → Carries io (send io true c more) (bytes ++ more)
  unfolding send send_in_loop
  send-Carries c bytes more v h =
      let c1 = record c { output = append c.output more } in
      let v1 = appended c bytes more v h in
      elim (Bool-cases (is_connected c.state && (readable_bytes c1.output == length more))) [
        | inl e ↦ rw e (
            notified _ (bytes ++ more) (
              direct-Carries c1 (bytes ++ more) more (write c.ssl more c.world) v1
                (only_appended c bytes more v h (ground arith)) (write_law c.ssl more c.world)))
        | inr e ↦ rw e (notified c1 (bytes ++ more) v1)
      ]

-- ===== src/Connection/Closing/Operations.antt =====
-- Reading, writing, sending and connecting close at most what they give up.
use network_lirbary.Common.{
  ℕ, zero, suc, ◌+◌, ◌≡◌, refl, ◌∙◌, ap, inl, inr, Bool, true, false, ◌&&◌, not, Bool-cases, length,
  ltb, ◌==◌, subst, Bytes,
}
use network_lirbary.Memory.Buffer.{readable_bytes, append}
use network_lirbary.Connection.Sockets.{
  Io, ReadResult, got, end_of_file, WriteResult, wrote, HandshakeResult, ConnectResult, immediate,
  in_progress, refused,
}
use network_lirbary.Connection.{
  Connection, State, modify_fd, connect_callback, run_in_loop, Flush, go_on, break, leave,
  after_read, read_loop, read_open, after_handshake, handle_handshake, handle_read_in, after_write,
  write_done, write_loop, handle_write_in, after_direct_write, send_in_loop, send, after_connect,
  is_disconnected, is_connected, after_step, established,
}
use network_lirbary.Connection.Closing.Counting.{
  closes, open_fd, closes-harmless, closes-optional, handles, Keeps, handle_close-handles,
  handle_error-handles, notify_output-handles,
}

module _ (io : Io) (on_message : Connection io.World → Connection io.World)
    (kept : (c : Connection io.World) → handles (on_message c) ≡ handles c) where
  open io use {World, read, write, do_handshake, socket_ok, allow_read, connect}

  after_read-handles :
      (c : Connection World) (r : ReadResult × World)
      → handles (after_read io on_message c r).0 ≡ handles c
  unfolding after_read
  after_read-handles c (got bytes, w) = kept _
  after_read-handles c (end_of_file, w) = handle_close-handles _
  after_read-handles c (ReadResult.retry, w) = refl
  after_read-handles c (ReadResult.fatal, w) = handle_error-handles _

  read_loop-handles :
      (fuel : ℕ) (c : Connection World) → Keeps (handles c) (read_loop io on_message fuel c)
  unfolding read_loop
  read_loop-handles zero c = tt
  read_loop-handles (suc fuel) c =
      let r = after_read io on_message c (read c.ssl c.world) in
      let same : handles r.0 ≡ handles c = after_read-handles c (read c.ssl c.world) in
      elim (Bool-cases (is_disconnected c.state)) [
        | inl e ↦ rw e refl
        | inr e ↦ rw e (elim (Bool-cases r.1) [
          | inl more ↦ rw more (
              subst (λ k. Keeps k (read_loop io on_message fuel r.0)) same
                (read_loop-handles fuel r.0))
          | inr done ↦ rw done same
        ])
      ]

  read_open-handles :
      (fuel : ℕ) (c : Connection World) → Keeps (handles c) (read_open io on_message fuel c)
  unfolding read_open
  read_open-handles fuel c = elim (Bool-cases (allow_read c.world).0) [
    | inl e ↦ rw e (read_loop-handles fuel _)
    | inr e ↦ rw e refl
  ]

  after_handshake-handles :
      (fuel : ℕ) (c : Connection World) (r : HandshakeResult × World)
      → Keeps (handles c) (after_handshake io on_message fuel c r)
  unfolding after_handshake
  after_handshake-handles fuel c (HandshakeResult.finished, w) = read_open-handles fuel _
  after_handshake-handles fuel c (HandshakeResult.retry, w) = refl
  after_handshake-handles fuel c (HandshakeResult.fatal, w) = handle_error-handles _

  pub handshake-handles :
      (fuel : ℕ) (c : Connection World) → Keeps (handles c) (handle_handshake io on_message fuel c)
  unfolding handle_handshake
  handshake-handles fuel c = after_handshake-handles fuel c (do_handshake c.world)

  pub handle_read_in-handles :
      (st : State) (fuel : ℕ) (c : Connection World)
      → Keeps (handles c) (handle_read_in io st on_message fuel c)
  unfolding handle_read_in
  handle_read_in-handles State.disconnected fuel c = refl
  handle_read_in-handles State.handshaking fuel c = handshake-handles fuel c
  handle_read_in-handles State.connecting fuel c = read_open-handles fuel c
  handle_read_in-handles State.connected fuel c = read_open-handles fuel c
  handle_read_in-handles State.disconnecting fuel c = read_open-handles fuel c

  write_done-handles : (c : Connection World) → handles (write_done io c) ≡ handles c
  unfolding write_done closes
  write_done-handles c =
      elim (Bool-cases ((readable_bytes c.output == 0) && not (is_disconnected c.state))) [
        | inl e ↦
            rw e
              (ap (λ k. k + open_fd c.fd) (closes-harmless c.effects (modify_fd c.fd false) refl))
        | inr e ↦ rw e
      ]

  established-handles :
      (c : Connection World) (w : World) → handles (established io c w) ≡ handles c
  unfolding established closes
  established-handles c w =
      ap (λ k. k + open_fd c.fd)
        (closes-optional c.effects (connect_callback true) c.has_connect_callback refl)

  abbrev FlushKeeps : ℕ → Flush World → Type 0
  FlushKeeps k (go_on c) = handles c ≡ k
  FlushKeeps k (break c) = handles c ≡ k
  FlushKeeps k (leave c) = handles c ≡ k

  after_write-handles :
      (c : Connection World) (r : WriteResult × World) → FlushKeeps (handles c) (after_write io c r)
  unfolding after_write
  after_write-handles c (wrote n, w) = refl
  after_write-handles c (WriteResult.retry, w) = refl
  after_write-handles c (WriteResult.fatal, w) = handle_error-handles _

  after_flush :
      (k fuel : ℕ) (step : Flush World)
      → FlushKeeps k step
      → ((c : Connection World) → handles c ≡ k → Keeps k (write_loop io fuel c))
      → Keeps k (after_step io (write_loop io fuel) step)
  after_flush k fuel (go_on c) h loop = loop c h
  after_flush k fuel (break c) h loop = write_done-handles c ∙ h
  after_flush k fuel (leave c) h loop = h

  write_loop-handles : (fuel : ℕ) (c : Connection World) → Keeps (handles c) (write_loop io fuel c)
  unfolding write_loop
  write_loop-handles zero c = tt
  write_loop-handles (suc fuel) c =
      elim (Bool-cases (ltb 0 (readable_bytes c.output) && not (is_disconnected c.state))) [
        | inl e ↦ rw e (
            after_flush (handles c) fuel _ (after_write-handles c _)
              (λ c' h. subst (λ k. Keeps k (write_loop io fuel c')) h (write_loop-handles fuel c')))
        | inr e ↦ rw e (write_done-handles c)
      ]

  pub handle_write_in-handles :
      (st : State) (fuel : ℕ) (c : Connection World)
      → Keeps (handles c) (handle_write_in io st on_message fuel c)
  unfolding handle_write_in
  handle_write_in-handles State.disconnected fuel c = refl
  handle_write_in-handles State.handshaking fuel c = handshake-handles fuel c
  handle_write_in-handles State.connected fuel c = write_loop-handles fuel c
  handle_write_in-handles State.disconnecting fuel c = write_loop-handles fuel c
  handle_write_in-handles State.connecting fuel c = elim (Bool-cases (socket_ok c.world).0) [
    | inl e ↦
        let c' = established io c (socket_ok c.world).1 in
        rw e (
          subst (λ k. Keeps k (write_loop io fuel c')) (established-handles c (socket_ok c.world).1)
            (write_loop-handles fuel c'))
    | inr e ↦ rw e (handle_error-handles (record c { world = (socket_ok c.world).1 }))
  ]

  pub after_connect-handles :
      (c : Connection World) (r : ConnectResult × World)
      → handles (after_connect io c r).0 ≡ handles c
  unfolding after_connect
  after_connect-handles c (refused, w) = refl
  after_connect-handles c (in_progress, w) = refl
  after_connect-handles c (immediate, w) = established-handles c w

  after_direct_write-handles :
      (c : Connection World) (r : WriteResult × World)
      → handles (after_direct_write io c r) ≡ handles c
  unfolding after_direct_write
  after_direct_write-handles c (wrote n, w) = refl
  after_direct_write-handles c (WriteResult.retry, w) = refl
  after_direct_write-handles c (WriteResult.fatal, w) = refl

  pub send-handles :
      (b : Bool) (c : Connection World) (bytes : Bytes) → handles (send io b c bytes) ≡ handles c
  unfolding send send_in_loop closes
  send-handles false c bytes =
      ap (λ k. k + open_fd c.fd) (closes-harmless c.effects (run_in_loop bytes) refl)
  send-handles true c bytes =
      let c1 = record c { output = append c.output bytes } in
      elim (Bool-cases (is_connected c.state && (readable_bytes c1.output == length bytes))) [
        | inl e ↦ rw e (
            notify_output-handles (after_direct_write io c1 (write c.ssl bytes c.world))
            ∙ after_direct_write-handles c1 (write c.ssl bytes c.world))
        | inr e ↦ rw e (notify_output-handles c1)
      ]

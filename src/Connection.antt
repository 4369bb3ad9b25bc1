-- ===== src/Connection.antt =====
-- `Connection` of lib_network/src/connection.cc: one socket with its input and output buffers,
-- run by its event loop. A descriptor is `none` once it is -1. Calls of the loop, the socket and
-- the callbacks that leave no result are recorded in `effects`, in order; logging and tracing are
-- left out.
pub mod Sockets
pub mod Stream
pub mod Closing
pub mod Arrivals
pub mod Samples
mod Tests
use network_lirbary.Common.{
  ℕ, zero, suc, Bool, true, false, not, ◌&&◌, ◌==◌, ltb, if◌then◌else◌, List, [], ◌∷◌, ◌++◌, Option,
  none, some, length, Bytes,
}
use network_lirbary.Memory.Buffer.{Buffer, readable_bytes, peek, retrieve, append}
use Sockets.{
  ReadResult, got, end_of_file, WriteResult, wrote, HandshakeResult, ConnectResult, immediate,
  in_progress, refused, Io,
}

pub data State : Type 0 where
  connecting handshaking connected disconnecting disconnected : State

pub data Effect : Type 0 where
  -- `ModifyFd`, with or without EPOLLOUT.
  modify_fd : Option ℕ → Bool → Effect
  remove_fd : Option ℕ → Effect
  close_fd : ℕ → Effect
  shutdown_write : Option ℕ → Effect
  connect_callback : Bool → Effect
  disconnect_callback : Effect
  -- `RunInLoop` of a later `Send`, from another thread.
  run_in_loop : Bytes → Effect

pub record Connection (World : Type 0) : Type 0 where
  pub fd : Option ℕ
  pub state : State
  pub ssl : Bool
  pub input : Buffer
  pub output : Buffer
  pub has_connect_callback : Bool
  pub has_disconnect_callback : Bool
  pub effects : List Effect
  pub world : World

-- After one `Write` of the output buffer: round again, out of the loop, or out of the function.
pub data Flush (World : Type 0) : Type 0 where
  go_on break leave : Connection World → Flush World

abbrev pub is_disconnected : State → Bool
is_disconnected disconnected = true
is_disconnected _ = false

abbrev pub is_connecting : State → Bool
is_connecting connecting = true
is_connecting _ = false

abbrev pub is_connected : State → Bool
is_connected connected = true
is_connected _ = false

abbrev pub close_effects : Option ℕ → List Effect
close_effects none = remove_fd none ∷ []
close_effects (some n) = remove_fd (some n) ∷ close_fd n ∷ []

module _ {World : Type 0} where
  unfoldable pub handle_close : Connection World → Connection World
  handle_close c = if is_disconnected c.state then c else record c {
    fd = none;
    state = disconnected;
    effects =
        c.effects
        ++ (close_effects c.fd
            ++ (if c.has_disconnect_callback then disconnect_callback ∷ [] else []));
  }

  -- A connect that fails is reported.
  pub report_failure : Connection World → Connection World
  report_failure c = record c {
    effects =
        c.effects
        ++ (if is_connecting c.state && c.has_connect_callback
            then connect_callback false ∷ []
            else []);
  }

  pub handle_error : Connection World → Connection World
  handle_error c = if is_disconnected c.state then c else handle_close (report_failure c)

  pub force_close : Connection World → Connection World
  force_close c = handle_close c

  pub set_connected : Connection World → Connection World
  set_connected c = record c { state = connected }

  pub shutdown : Connection World → Connection World
  shutdown c =
      if is_connected c.state
      then record c {
        state = disconnecting;
        effects =
            c.effects ++ (if readable_bytes c.output == 0 then shutdown_write c.fd ∷ [] else []);
      }
      else c

  -- `~Connection()`.
  pub destroy : Connection World → Connection World
  destroy c = elim c.fd [
    | none ↦ c
    | some n ↦ record c { fd = none; effects = c.effects ++ close_fd n ∷ [] }
  ]

  -- EPOLLOUT is wanted while there is something to write.
  pub notify_output : Connection World → Connection World
  notify_output c =
      if ltb 0 (readable_bytes c.output)
      then record c { effects = c.effects ++ modify_fd c.fd true ∷ [] }
      else c

module _ (io : Io) where
  open io use {World, read, write, do_handshake, socket_ok, connect, allow_read}

  -- One `Read` and what `HandleRead` does with it; true if the loop goes on.
  pub after_read :
      (Connection World → Connection World)
      → Connection World
      → ReadResult × World
      → Connection World × Bool
  after_read on_message c (got bytes, w) =
      (on_message (record c { input = append c.input bytes; world = w }), true)
  after_read on_message c (end_of_file, w) = (handle_close (record c { world = w }), false)
  after_read on_message c (ReadResult.retry, w) = (record c { world = w }, false)
  after_read on_message c (ReadResult.fatal, w) = (handle_error (record c { world = w }), false)

  -- `while (state_ != kDisconnected)` of `HandleRead`, on fuel; `on_message` is the message
  -- callback.
  pub read_loop :
      (Connection World → Connection World) → ℕ → Connection World → Option (Connection World)
  read_loop on_message zero c = none
  read_loop on_message (suc fuel) c =
      let (c', more) = after_read on_message c (read c.ssl c.world) in
      let rest = if more then read_loop on_message fuel c' else some c' in
      if is_disconnected c.state then some c else rest

  -- `HandleRead` on a connection that is past its handshake.
  pub read_open :
      (Connection World → Connection World) → ℕ → Connection World → Option (Connection World)
  read_open on_message fuel c =
      let (allowed, w) = allow_read c.world in
      if allowed
      then read_loop on_message fuel (record c { world = w })
      else some (record c { world = w })

  pub after_handshake :
      (Connection World → Connection World)
      → ℕ
      → Connection World
      → HandshakeResult × World
      → Option (Connection World)
  after_handshake on_message fuel c (HandshakeResult.finished, w) =
      read_open on_message fuel (record c { state = connected; world = w })
  after_handshake on_message fuel c (HandshakeResult.retry, w) = some (record c { world = w })
  after_handshake on_message fuel c (HandshakeResult.fatal, w) =
      some (handle_error (record c { world = w }))

  pub handle_handshake :
      (Connection World → Connection World) → ℕ → Connection World → Option (Connection World)
  handle_handshake on_message fuel c = after_handshake on_message fuel c (do_handshake c.world)

  pub handle_read_in :
      State
      → (Connection World → Connection World)
      → ℕ
      → Connection World
      → Option (Connection World)
  handle_read_in disconnected on_message fuel c = some c
  handle_read_in handshaking on_message fuel c = handle_handshake on_message fuel c
  handle_read_in _ on_message fuel c = read_open on_message fuel c

  pub handle_read :
      (Connection World → Connection World) → ℕ → Connection World → Option (Connection World)
  handle_read on_message fuel c = handle_read_in c.state on_message fuel c

  -- `SetSsl`.
  pub set_ssl :
      (Connection World → Connection World) → ℕ → Connection World → Option (Connection World)
  set_ssl on_message fuel c =
      handle_handshake on_message fuel (record c { ssl = true; state = handshaking })

  -- The socket is connected, which is reported.
  pub established : Connection World → World → Connection World
  established c w = record c {
    state = connected;
    effects = c.effects ++ (if c.has_connect_callback then connect_callback true ∷ [] else []);
    world = w;
  }

  pub after_write : Connection World → WriteResult × World → Flush World
  after_write c (wrote n, w) = go_on (record c { output = retrieve c.output n; world = w })
  after_write c (WriteResult.retry, w) = break (record c { world = w })
  after_write c (WriteResult.fatal, w) = leave (handle_error (record c { world = w }))

  -- After the loop: an empty output buffer needs no more EPOLLOUT.
  pub write_done : Connection World → Connection World
  write_done c =
      if (readable_bytes c.output == 0) && not (is_disconnected c.state)
      then record c { effects = c.effects ++ modify_fd c.fd false ∷ [] }
      else c

  -- Where the loop goes after a step; `again` is the rest of the loop.
  abbrev pub after_step :
      (Connection World → Option (Connection World)) → Flush World → Option (Connection World)
  after_step again (go_on c) = again c
  after_step again (break c) = some (write_done c)
  after_step again (leave c) = some c

  -- `while (ReadableBytes() > 0 && state_ != kDisconnected)` of `HandleWrite`, on fuel.
  pub write_loop : ℕ → Connection World → Option (Connection World)
  write_loop zero c = none
  write_loop (suc fuel) c =
      let step = after_write c (write c.ssl (peek c.output (readable_bytes c.output)) c.world) in
      let rest = after_step (write_loop fuel) step in
      if ltb 0 (readable_bytes c.output) && not (is_disconnected c.state)
      then rest
      else some (write_done c)

  pub handle_write_in :
      State
      → (Connection World → Connection World)
      → ℕ
      → Connection World
      → Option (Connection World)
  handle_write_in disconnected on_message fuel c = some c
  handle_write_in connecting on_message fuel c =
      let (fine, w) = socket_ok c.world in
      if fine
      then write_loop fuel (established c w)
      else some (handle_error (record c { world = w }))
  handle_write_in handshaking on_message fuel c = handle_handshake on_message fuel c
  handle_write_in _ on_message fuel c = write_loop fuel c

  pub handle_write :
      (Connection World → Connection World) → ℕ → Connection World → Option (Connection World)
  handle_write on_message fuel c = handle_write_in c.state on_message fuel c

  -- The direct write of `Send`: what was written is the front of the output buffer.
  pub after_direct_write : Connection World → WriteResult × World → Connection World
  after_direct_write c (wrote n, w) = record c { output = retrieve c.output n; world = w }
  after_direct_write c (_, w) = record c { world = w }

  pub send_in_loop : Connection World → Bytes → Connection World
  send_in_loop c bytes =
      let c1 = record c { output = append c.output bytes } in
      let direct = after_direct_write c1 (write c.ssl bytes c.world) in
      let c2 =
        if is_connected c.state && (readable_bytes c1.output == length bytes) then direct else c1 in
      notify_output c2

  -- `Send`; the flag says whether the caller is the loop's thread.
  pub send : Bool → Connection World → Bytes → Connection World
  send true c bytes = send_in_loop c bytes
  send false c bytes = record c { effects = c.effects ++ run_in_loop bytes ∷ [] }

  pub after_connect : Connection World → ConnectResult × World → Connection World × Bool
  after_connect c (refused, w) = (record c { world = w }, false)
  after_connect c (in_progress, w) = (record c { state = connecting; world = w }, true)
  after_connect c (immediate, w) = (established c w, true)

  -- `Connect`; the flag `valid` is the answer of `inet_pton`, the result that of the call.
  pub connect_to : Bool → Connection World → Connection World × Bool
  connect_to false c = (c, false)
  connect_to true c = after_connect c (connect c.world)
